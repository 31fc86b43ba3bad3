-- ===== src/Interview/Written.antt =====
-- What `appendEvent` of lib/bundle.mjs has let through.
use masterplan.Common.{◌≡◌, false, ok, ok_inj, throw_if-eq-ok}
use masterplan.Interview.Events.{Event}
use masterplan.Interview.Log.{Context, breaks_schema, append_event}

-- The event is written as it is, and its schema is kept.
pub append_event-eq_ok :
    (c : Context) (x : Event) {e : Event}
    → append_event c x ≡ ok e
    → (x ≡ e) × (breaks_schema x ≡ false)
unfolding append_event
append_event-eq_ok c x h =
    let (kept, h1) = throw_if-eq-ok (breaks_schema x) _ _ h in
    let (_, h2) = throw_if-eq-ok c.archived _ _ h1 in (ok_inj h2, kept)
