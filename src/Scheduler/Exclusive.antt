-- ===== src/Scheduler/Exclusive.antt =====
-- src/scheduler/mod.rs: tables of claims in which no two active claims hold a resource that one of
-- them holds exclusively, and what keeps a table like that.
use mathlib.Core.List.{Memᴰ}
use checkspan.Common.{
  ◌≤◌, Bool, true, false, List, [], ◌∷◌, ◌++◌, map, All, ◌≡◌, refl, subst, ◌∙◌, inl, inr, arith,
  Text, Bool-cases, ◌≢◌, ◌==◌, ≡→==, nat_eq, list_eq,
}
use checkspan.Contracts.Node.{ResourceClaim, exclusive, resource_access_eq}
use checkspan.Store.Rows.{ClaimRow}
use checkspan.Store.Writes.{released}
use checkspan.Scheduler.Claim.{excludes}
use checkspan.Scheduler.Dispatch.{active_count}

-- On a resource that both claims hold, neither has exclusive access.
abbrev pub Compatible : ClaimRow → ClaimRow → Type 0
Compatible c d =
    (held wanted : ResourceClaim)
    → Memᴰ held c.resources
    → Memᴰ wanted d.resources
    → held.resource ≡ wanted.resource
    → (held.access ≢ exclusive) × (wanted.access ≢ exclusive)

pub excludes-Compatible :
    (held wanted : ResourceClaim)
    → excludes wanted held ≡ false
    → held.resource ≡ wanted.resource
    → (held.access ≢ exclusive) × (wanted.access ≢ exclusive)
excludes-Compatible held wanted h same =
    let on_same : (held.resource == wanted.resource) ≡ true =
      ≡→== held.resource wanted.resource same in
    (
      λ e.
          let is : (held.access == exclusive) ≡ true = ≡→== held.access exclusive e in
          ground (arith, h, on_same, is),
      λ e.
          let is : (wanted.access == exclusive) ≡ true = ≡→== wanted.access exclusive e in
          ground (arith, h, on_same, is),
    )

abbrev pub Apart : ClaimRow → ClaimRow → Type 0
Apart c d = c.active ≡ true → d.active ≡ true → Compatible c d

unfoldable pub Exclusive : List ClaimRow → Type 0
Exclusive [] = Unit
Exclusive (c ∷ cs) = All (Apart c) cs × Exclusive cs

-- The same claims, of which some are active no more.
abbrev pub IsWeaker : ClaimRow → ClaimRow → Type 0
IsWeaker c d = (d.resources ≡ c.resources) × (d.active ≡ true → c.active ≡ true)

pub Weaker : List ClaimRow → List ClaimRow → Type 0
Weaker [] [] = Unit
Weaker [] (d ∷ ds) = ⊥
Weaker (c ∷ cs) [] = ⊥
Weaker (c ∷ cs) (d ∷ ds) = IsWeaker c d × Weaker cs ds

pub Weaker-refl : (cs : List ClaimRow) → Weaker cs cs
unfolding Weaker
Weaker-refl [] = tt
Weaker-refl (c ∷ cs) = ((refl, λ h. h), Weaker-refl cs)

pub Weaker-trans : (cs ds es : List ClaimRow) → Weaker cs ds → Weaker ds es → Weaker cs es
unfolding Weaker
Weaker-trans [] [] es h k = k
Weaker-trans [] (d ∷ ds) es h k = elim h [ ]
Weaker-trans (c ∷ cs) [] es h k = elim h [ ]
Weaker-trans (c ∷ cs) (d ∷ ds) [] h k = elim k [ ]
Weaker-trans (c ∷ cs) (d ∷ ds) (e ∷ es) (h, hs) (k, ks) =
    ((k.0 ∙ h.0, λ live. h.1 (k.1 live)), Weaker-trans cs ds es hs ks)

released-IsWeaker :
    (now how : Text) (held : ClaimRow → Bool) (c : ClaimRow) → IsWeaker c (released now how held c)
unfolding released
released-IsWeaker now how held c = elim (Bool-cases (held c)) [
  | inl e ↦ rw (released, e) (refl, λ h. cc h)
  | inr e ↦ rw (released, e) (refl, λ h. h)
]

pub released-Weaker :
    (now how : Text) (held : ClaimRow → Bool) (cs : List ClaimRow)
    → Weaker cs (map (released now how held) cs)
unfolding Weaker
released-Weaker now how held [] = tt
released-Weaker now how held (c ∷ cs) =
    (released-IsWeaker now how held c, released-Weaker now how held cs)

Apart-Weaker :
    (c d : ClaimRow) (cs ds : List ClaimRow)
    → IsWeaker c d
    → Weaker cs ds
    → All (Apart c) cs
    → All (Apart d) ds
unfolding Weaker
Apart-Weaker c d [] [] w ws h = tt
Apart-Weaker c d [] (y ∷ ds) w ws h = elim ws [ ]
Apart-Weaker c d (x ∷ cs) [] w ws h = elim ws [ ]
Apart-Weaker c d (x ∷ cs) (y ∷ ds) w (v, ws) (h, hs) = (
  λ live live' held wanted i j.
      h (w.1 live) (v.1 live') held wanted (subst (λ l. Memᴰ held l) w.0 i)
        (subst (λ l. Memᴰ wanted l) v.0 j),
  Apart-Weaker c d cs ds w ws hs,
)

pub Exclusive-Weaker : (cs ds : List ClaimRow) → Weaker cs ds → Exclusive cs → Exclusive ds
unfolding Weaker Exclusive
Exclusive-Weaker [] [] w h = tt
Exclusive-Weaker [] (d ∷ ds) w h = elim w [ ]
Exclusive-Weaker (c ∷ cs) [] w h = elim w [ ]
Exclusive-Weaker (c ∷ cs) (d ∷ ds) (w, ws) (h, hs) =
    (Apart-Weaker c d cs ds w ws h, Exclusive-Weaker cs ds ws hs)

pub active_count-Weaker : (cs ds : List ClaimRow) → Weaker cs ds → active_count ds ≤ active_count cs
unfolding Weaker active_count
active_count-Weaker [] [] w = omega arith
active_count-Weaker [] (d ∷ ds) w = elim w [ ]
active_count-Weaker (c ∷ cs) [] w = elim w [ ]
active_count-Weaker (c ∷ cs) (d ∷ ds) (w, ws) = ground (arith, w.1, active_count-Weaker cs ds ws)

All-append :
    (P : ClaimRow → Type 0) (cs : List ClaimRow) (d : ClaimRow)
    → All P cs
    → P d
    → All P (cs ++ d ∷ [])
All-append P [] d h p = (p, tt)
All-append P (c ∷ cs) d (h, hs) p = (h, All-append P cs d hs p)

pub Exclusive-append :
    (cs : List ClaimRow) (d : ClaimRow)
    → Exclusive cs
    → All (λ c. Apart c d) cs
    → Exclusive (cs ++ d ∷ [])
unfolding Exclusive
Exclusive-append [] d h p = (tt, tt)
Exclusive-append (c ∷ cs) d (h, hs) (p, ps) =
    (All-append (Apart c) cs d h p, Exclusive-append cs d hs ps)
