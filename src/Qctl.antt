-- ===== src/Qctl.antt =====
-- lib/qctl-enqueue.mjs, qctl-requeue.mjs, qctl-status.mjs and qctl-artifact.mjs: what the run makes of
-- a result that the qctl queue produced. sha256 and JSON parsing are not in the source: the digest of the patch
-- is an argument.
use masterplan.Common.{
  ◌≡◌, ◌≢◌, ◌↔◌, refl, sym, ap, ◌∙◌, ◌⊎◌, inl, inr, Bool, true, false, not, ◌&&◌, List, [], ◌∷◌,
  map, Option, none, some, Text, get_or, leb, if◌then◌else◌, ◌==◌, ==_cases, text_eq_instance,
  arith, ◌+◌,
}
use masterplan.Resume.Decide.{truthy}

-- `decideEnqueue`, for a job and its key.
pub data Enqueue (J : Type 0) : Type 0 where
  reuse : J → Enqueue J
  upsert : Enqueue J

unfoldable pub decide_enqueue : {J : Type 0} → Option (J × Text) → Text → Enqueue J
decide_enqueue none k = upsert
decide_enqueue (some (job, k')) k = if k' == k then reuse job else upsert

pub data Drift : Type 0 where
  apply : Drift
  requeue : Option Text → Drift

abbrev non_empty : Option Text → Option Text
non_empty o = if truthy o then o else none

unfoldable pub decide_base_drift : Option Text → Option Text → Drift
decide_base_drift recorded head =
    if truthy recorded && truthy head && get_or recorded [] == get_or head []
    then apply
    else requeue (non_empty head)

pub data ProducerStatus : Type 0 where
  accepted review dead_letter : ProducerStatus
  unknown : Text → ProducerStatus

pub data QctlStatus : Type 0 where
  done failed blocked : QctlStatus

pub data Flag : Type 0 where
  claude_review unknown_producer_status : Flag

unfoldable pub base_status : ProducerStatus → QctlStatus × List Flag
base_status accepted = (done, [])
base_status review = (done, claude_review ∷ [])
base_status dead_letter = (failed, [])
base_status (unknown s) = (failed, unknown_producer_status ∷ [])

pub record Mapped : Type 0 where
  pub task_status : QctlStatus
  pub flags : List Flag
  pub producer_status : ProducerStatus

-- A stage that did not run is `none`; otherwise it is whether it succeeded.
abbrev pub has_failed : Option Bool → Bool
has_failed (some false) = true
has_failed o = false

unfoldable pub map_qctl_status : ProducerStatus → Option Bool → Option Bool → Mapped
unfolding base_status
map_qctl_status producer applied d6 =
    let base = base_status producer in
    record {
      task_status =
          if has_failed applied then blocked else if has_failed d6 then failed else base.0;
      flags = base.1;
      producer_status = producer;
    }

-- `toLowerCase` on hexadecimal digits.
unfoldable pub lower_case : Text → Text
lower_case s = map (λ c. if leb b'A' c && leb c b'Z' then c + 32 else c) s

pub data ArtifactCheck : Type 0 where
  passed mismatch : (actual : Text) → ArtifactCheck
  missing_bytes missing_declared : ArtifactCheck

unfoldable pub verify_artifact : (Text → Text) → Option Text → Option Text → ArtifactCheck
unfolding lower_case
verify_artifact sha256 declared none = missing_bytes
verify_artifact sha256 declared (some bytes) =
    if not (truthy declared)
    then missing_declared
    else let actual = sha256 bytes in
      if lower_case actual == lower_case (get_or declared [])
      then passed actual
      else mismatch actual

-- When a qctl result counts as done: the producer accepted it, with or without a review, and neither
-- the application of its patch nor the checks after it failed.
abbrev IsDone : ProducerStatus → Option Bool → Option Bool → Type 0
IsDone p applied d6 = ((p ≡ accepted) ⊎ (p ≡ review)) × (applied ≢ some false) × (d6 ≢ some false)

-- A result counts as done just when the producer's status is accepted or review and neither
-- the application of the patch nor the checks after it failed. It is blocked just
-- when the application failed. In any case the flag for a review is kept just when the
-- producer asked for one.
pub map_qctl_status_iff :
    (p : ProducerStatus) (applied d6 : Option Bool)
    → (((map_qctl_status p applied d6).task_status ≡ done) ↔ IsDone p applied d6)
      × (((map_qctl_status p applied d6).task_status ≡ blocked) ↔ (applied ≡ some false))
      × (((map_qctl_status p applied d6).flags ≡ claude_review ∷ []) ↔ (p ≡ review))
unfolding map_qctl_status base_status
map_qctl_status_iff p applied d6 =
    ((ground arith, ground arith), (ground arith, ground arith), (ground arith, ground arith))

differs : {c : Option Text} → requeue c ≡ apply → ⊥
differs e = cc

some_inj : {a b : Text} → ◌≡◌ {A = Option Text} (some a) (some b) → a ≡ b
some_inj e = cc

abbrev IsSameCommit : Option Text → Option Text → Type 0
IsSameCommit recorded head = (c : Text) × (c ≢ []) × (recorded ≡ some c) × (head ≡ some c)

-- What the drift of a base comes to.
abbrev Decides : Option Text → Option Text → Type 0
Decides recorded head =
    ((decide_base_drift recorded head ≡ apply) ↔ IsSameCommit recorded head)
    × ((decide_base_drift recorded head ≢ apply)
        → (c : Text) → c ≢ []
        → head ≡ some c
        → decide_base_drift recorded head ≡ requeue (some c))

requeued :
    (recorded head : Option Text)
    → decide_base_drift recorded head ≡ requeue (non_empty head)
    → ¬ IsSameCommit recorded head
    → Decides recorded head
requeued recorded head e differ = (
  (λ q. absurd (differs (sym e ∙ q)), λ same. absurd (differ same)),
  λ _ c n q. e ∙ ap requeue (kept head c n q),
)
  where
    kept : (head : Option Text) (c : Text) → c ≢ [] → head ≡ some c → non_empty head ≡ some c
    kept none c n q = cc
    kept (some []) c n q = absurd (n (sym (some_inj q)))
    kept (some (x ∷ xs)) c n q = q

decides : (recorded head : Option Text) → Decides recorded head
unfolding decide_base_drift
decides none head = requeued none head refl (λ (c, n, p, q). cc)
decides (some []) head = requeued (some []) head refl (λ (c, n, p, q). n (sym (some_inj p)))
decides (some (c ∷ cs)) none = requeued (some (c ∷ cs)) none refl (λ (d, n, p, q). cc)
decides (some (c ∷ cs)) (some []) =
    requeued (some (c ∷ cs)) (some []) refl (λ (d, n, p, q). n (sym (some_inj q)))
decides (some (c ∷ cs)) (some (d ∷ ds)) = elim (==_cases (c ∷ cs) (d ∷ ds)) [
  | inr (h, ne) ↦
      requeued (some (c ∷ cs)) (some (d ∷ ds)) (rw (h, decide_base_drift) refl)
        (λ (x, n, p, q). ne (some_inj p ∙ sym (some_inj q)))
  | inl (h, e) ↦ (
    (λ _. (d ∷ ds, (λ q. cc), ap some e, refl), λ _. rw (h, decide_base_drift) refl),
    λ ne. absurd (ne (rw (h, decide_base_drift) refl)),
  )
]

-- A patch is applied only on the commit that it was made for: both commits are known and equal. If
-- not, it is queued again for the current commit, when that is known.
pub decide_base_drift-apply_iff :
    (recorded head : Option Text)
    → ((decide_base_drift recorded head ≡ apply)
        ↔ ((c : Text) × (c ≢ []) × (recorded ≡ some c) × (head ≡ some c)))
      × ((decide_base_drift recorded head ≢ apply)
          → (c : Text) → c ≢ []
          → head ≡ some c
          → decide_base_drift recorded head ≡ requeue (some c))
decide_base_drift-apply_iff recorded head = decides recorded head
