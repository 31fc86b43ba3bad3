-- ===== src/Samples/Links.antt =====
-- Samples for the references, the handoff keys and the qctl results.
use masterplan.Common.{
  cons_not_nil, ℕ, ◌≡◌, ◌≢◌, ◌↔◌, ◌⊎◌, refl, Bool, true, false, List, [], ◌∷◌, Option, none, some,
  Text, text, ok, Result,
}
use masterplan.Bundle.State.{RefEntry}
use masterplan.Refs.Entries.{
  back, is_bare_slug, reciprocal_direction, refs_in, Changed, has_key, ref_key, upsert_ref,
  remove_ref, RefsPlan, plan_refs_add, apply_refs_add, Added,
}
use masterplan.Refs.Linking.{AreLinked, unchanged, apply_refs_add-AreLinked}
use masterplan.Refs.Removing.{remove_ref-upsert_ref}
use masterplan.Bundle.Ids.{number, pos}
use masterplan.Handoff.Keys.{compose_handoff_key, decide_reuse, reuse}
use masterplan.Handoff.Reuse.{Item, key_of, IsSameItem, decide_reuse_iff}
use masterplan.Samples.Data.{id, started, stuck}

bare : is_bare_slug (text "my-run") ≡ true
unfolding is_bare_slug
bare = refl

bare_next : is_bare_slug (text "next") ≡ true
unfolding is_bare_slug
bare_next = refl

apply_refs_add-AreLinked_example :
    (p : RefsPlan) × (r : Added) × (plan_refs_add back
        (text "/a")
        (text "my-run")
        none
        (text "/b")
        (text "next")
        none
      ≡ ok p)
    × (apply_refs_add started stuck p ≡ ok r)
    × AreLinked back
        (text "/a")
        (text "my-run")
        (text "/b")
        (text "next")
        r.source.state
        r.target.state
    × (apply_refs_add r.source.state r.target.state p
        ≡ ok (unchanged r.source.state r.target.state))
apply_refs_add-AreLinked_example =
    apply_refs_add-AreLinked back (text "/a") (text "my-run") none (text "/b") (text "next") none
      started stuck cons_not_nil cons_not_nil bare bare_next

abbrev next : RefEntry
next = record { slug = text "next"; label = none; repo = none }

missing : has_key (text "/a") (ref_key next (text "/a")) (refs_in back started) ≡ false
unfolding refs_in masterplan.Common.any
missing = refl

remove_ref-upsert_ref_example :
    (r : Changed) × (upsert_ref started back next (text "/a") ≡ ok r)
    × (r.changed ≡ true)
    × (refs_in back (remove_ref r.state back next (text "/a")).state ≡ refs_in back started)
    × (refs_in (reciprocal_direction back) (remove_ref r.state back next (text "/a")).state
        ≡ refs_in (reciprocal_direction back) started)
remove_ref-upsert_ref_example =
    remove_ref-upsert_ref started back next (text "/a") bare_next missing

abbrev hash : Text
hash = text "0123456789abcdef0123456789abcdef0123456789abcdef0123456789abcdef"

abbrev item : Item
item = record { run = text "a:b"; task = id 3; spec_hash = hash; fingerprint = hash }

abbrev item_key : Text
item_key =
    text
      "fabric-idem-v1:a%3Ab:3:0123456789abcdef0123456789abcdef0123456789abcdef0123456789abcdef:0123456789abcdef0123456789abcdef0123456789abcdef0123456789abcdef"

composed : key_of item ≡ ok item_key
unfolding compose_handoff_key masterplan.Bundle.Ids.key masterplan.Common.flat_map
composed = refl

decide_reuse_iff_example :
    (decide_reuse
        (some (record { handoff_key = some item_key; status = text "done" }))
        (some item_key)
      ≡ ok reuse)
    ↔ (IsSameItem item item × (text "done" ≡ text "done"))
decide_reuse_iff_example =
    decide_reuse_iff item item item_key item_key (text "done") composed composed
