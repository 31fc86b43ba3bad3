-- ===== src/Handoff/Keys.antt =====
-- The handoff key and the decision to reuse a result, of lib/fabric-idempotency.mjs. The hashes in
-- the key are given as text.
use masterplan.Common.{
  ℕ, Bool, true, not, ◌&&◌, ◌||◌, [], ◌∷◌, ◌++◌, Option, none, some, Text, text, get_or, leb, eqb,
  length, if◌then◌else◌, Result, ok, ◌>>◌, throw_if, ◌==◌, text_eq_instance, flat_map,
}
use masterplan.Bundle.Ids.{TaskId, key}
use masterplan.Resume.Decide.{truthy}

pub data KeyError : Type 0 where
  no_run_id no_task_id bad_spec_hash bad_fingerprint no_current_key : KeyError

-- `s.replaceAll(c, w)` for one code unit `c`.
unfoldable pub replace_all : ℕ → Text → Text → Text
replace_all c w s = flat_map (λ x. if eqb x c then w else x ∷ []) s

unfoldable pub encode : Text → Text
unfolding replace_all
encode s = replace_all b':' (text "%3A") (replace_all b'%' (text "%25") s)

unfoldable pub is_hex : Text → Bool
is_hex [] = true
is_hex (c ∷ cs) = (leb b'0' c && leb c b'9' || leb b'a' c && leb c b'f') && is_hex cs

-- `/^[0-9a-f]{64}$/`
unfoldable pub is_sha256 : Text → Bool
unfolding is_hex
is_sha256 s = eqb (length s) 64 && is_hex s

unfoldable pub version : Text
version = text "fabric-idem-v1"

unfoldable pub joined : Text → Text → Text → Text → Text
unfolding encode version
joined run task spec_hash fingerprint =
    version
    ++ b':' ∷ (encode run ++ b':' ∷ (encode task ++ b':' ∷ (spec_hash ++ b':' ∷ fingerprint)))

-- An id or hash that is absent or no string is `none`.
unfoldable pub compose_handoff_key :
    Option Text → Option TaskId → Option Text → Option Text → Result KeyError Text
unfolding joined is_sha256
compose_handoff_key run task spec_hash fingerprint = do
  let task_key : Option Text = elim task [ none ↦ none | some t ↦ some (key t) ]
  throw_if (not (truthy run)) no_run_id
  throw_if (not (truthy task_key)) no_task_id
  throw_if (not (is_sha256 (get_or spec_hash []))) bad_spec_hash
  throw_if (not (is_sha256 (get_or fingerprint []))) bad_fingerprint
  ok (joined (get_or run []) (get_or task_key []) (get_or spec_hash []) (get_or fingerprint []))

-- The frozen record of an earlier dispatch.
pub record PriorRecord : Type 0 where
  pub handoff_key : Option Text
  pub status : Text

pub data Reuse : Type 0 where
  reuse no_prior_record no_prior_key key_mismatch not_reusable : Reuse

unfoldable pub decide_reuse : Option PriorRecord → Option Text → Result KeyError Reuse
decide_reuse prior current_key = do
  throw_if (not (truthy current_key)) no_current_key
  ok (elim prior [
    | none ↦ no_prior_record
    | some r ↦ elim r.handoff_key [
      | none ↦ no_prior_key
      | some k ↦
          if not (k == get_or current_key [])
          then key_mismatch
          else if r.status == text "done"
          then reuse
          else not_reusable
    ]
  ])
