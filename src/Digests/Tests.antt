-- ===== src/Digests/Tests.antt =====
-- A codec, values of two keys, and the theorems about digests at them.
use checkspan.Common.{none, [], ◌∷◌, ◌≡◌, ◌↔◌, refl, Text, text, ok, err, arith}
use mathlib.Core.List.Permᴰ
use checkspan.Contracts.Attempt.{EvidenceRef}
use checkspan.State.Tests.{sample_policy}
use checkspan.Digests.Envelope.{
  Codec, Json, positive, number, array, object, cons, nil, field, end, float, unsupported_number,
  walk, is_safe, as_i64, as_u64, decimal, pointer_push, escape, check_envelope_numbers, digest_of,
}
use checkspan.Digests.Numbers.{AllExact, digest_of_bounds}
use checkspan.Digests.Bound.{Writer, input_manifest_digest}
use checkspan.Digests.Order.{input_manifest_digest-Permᴰ}

abbrev pub sample_codec : Codec
sample_codec = record { canonical = λ _. ok (text "{}"); sha256 = λ bytes. text "sha256:0a" }

abbrev pub sample_writer : Writer
sample_writer = record {
  codec = sample_codec;
  write_graph = λ _. ok Json.null;
  write_node = λ _. ok Json.null;
  write_manifest = λ _. ok Json.null;
  write_context = λ _. ok Json.null;
  write_patch = λ _. ok Json.null;
}

-- The path to a float names the field and the index.
float_refused :
    check_envelope_numbers (
      object (
        field
          (text "a/b")
          (array (cons (number (positive 1)) (cons (number (float (text "1.5"))) nil)))
          end))
    ≡ err (unsupported_number (text "/a~1b/1") (float (text "1.5")))
unfolding check_envelope_numbers walk is_safe as_i64 as_u64 decimal pointer_push escape
float_refused = refl

digest_of_bounds_example :
    (digest_of sample_codec (text "kind") (number (positive 7)) ≡ ok (text "sha256:0a"))
    ↔ AllExact (number (positive 7))
digest_of_bounds_example =
    digest_of_bounds sample_codec (text "kind") (number (positive 7)) (text "{}") refl

abbrev evidence_on : Text → EvidenceRef
evidence_on port = record {
  port_name = port;
  locator = text "file";
  subject = text "subject";
  version = text "1";
  content_digest = text "sha256:02";
  provenance = record { producer = text "tool"; attestation_ref = none };
  policy_ref = sample_policy;
  valid_until = none;
}

input_manifest_digest-Permᴰ_example :
    input_manifest_digest sample_writer (evidence_on (text "b") ∷ evidence_on (text "a") ∷ []) []
    ≡ input_manifest_digest sample_writer (evidence_on (text "a") ∷ evidence_on (text "b") ∷ []) []
input_manifest_digest-Permᴰ_example =
    input_manifest_digest-Permᴰ sample_writer (evidence_on (text "b") ∷ evidence_on (text "a") ∷ [])
      (evidence_on (text "a") ∷ evidence_on (text "b") ∷ []) [] []
      (((λ h. ground (arith, h)), tt), (tt, tt)) tt (Permᴰ.swap refl refl) Permᴰ.nil
