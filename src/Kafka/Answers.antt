-- ===== src/Kafka/Answers.antt =====
-- What the client answers for the members and the offsets of the groups.
use lag_radar.Base.{
  ℕ, ◌≡◌, refl, sym, ap, ◌∙◌, ◌&&◌, List, [], ◌∷◌, Option, none, some, length, Bool-cases, inl, inr,
  if◌then◌else◌,
}
use lag_radar.Base.Int.{ℤ}
use lag_radar.Base.Word.{eqb_ℤ}
use lag_radar.Base.Text.{Str, str_eq}
use lag_radar.Base.Map.{Map, lookup, insert, lookup-insert, or_else, or_else-none, or_else_assoc}
use lag_radar.Base.Result.{ok}
use lag_radar.Collector.State.{Round}
use lag_radar.Collector.Cycle.{or_zero, or_empty}
use lag_radar.Kafka.{
  Library, ClientConfig, Description, count_members, list_consumer_groups,
  get_consumer_group_members, client_round,
}

-- The number of members in the last description of a group that has no error.
unfoldable pub last_count : ℤ → Str → List Description → Option ℕ
last_count no_error g [] = none
last_count no_error g (desc ∷ descs) = or_else (last_count no_error g descs) (
    if eqb_ℤ desc.error_code no_error && str_eq desc.group_id g
    then some (length desc.members)
    else none)

lookup-count_members :
    (no_error : ℤ) (g : Str) (descs : List Description) (members : Map ℕ)
    → lookup g (count_members no_error descs members)
      ≡ or_else (last_count no_error g descs) (lookup g members)
unfolding count_members last_count
lookup-count_members no_error g [] members = refl
lookup-count_members no_error g (desc ∷ descs) members =
    elim (Bool-cases (eqb_ℤ desc.error_code no_error)) [
      | inr failed ↦ rw failed (
          lookup-count_members no_error g descs members
          ∙ ap (λ o. or_else o (lookup g members))
              (sym (or_else-none (last_count no_error g descs))))
      | inl fine ↦
          let rest =
            lookup-count_members no_error g descs
              (insert desc.group_id (length desc.members) members) in
          let new = lookup-insert desc.group_id g (length desc.members) members in
          elim (Bool-cases (str_eq desc.group_id g)) [
            | inl this ↦
                rw (fine, this)
                  (rest
                    ∙ rw (new, this)
                        (or_else_assoc (last_count no_error g descs) (some (length desc.members))
                          (lookup g members)))
            | inr that ↦
                rw (fine, that)
                  (rest
                    ∙ rw (new, that)
                        (or_else_assoc (last_count no_error g descs) none (lookup g members)))
          ]
    ]

-- The number of members that the collector takes for a group, where the client answers it: that of the
-- last description of the group without an error, among those of the groups that were listed; 0 if
-- there is no such description.
pub client_round-members :
    {A C F : Type 0} (library : Library A C) (a : A) (c : C) (config : ClientConfig)
    (clock : Round F) (g : Str) {groups : List Str} {descs : List Description}
    → library.admin_groups a ≡ ok groups
    → library.descriptions a groups ≡ ok descs
    → let round = client_round library a c config clock in
      or_zero (lookup g (or_empty round.get_consumer_group_members))
      ≡ or_zero (last_count library.err_no_error g descs)
unfolding client_round list_consumer_groups get_consumer_group_members lookup
client_round-members library a c config clock g {groups} {descs} listed described =
    rw (listed, described)
      (ap or_zero (
        lookup-count_members library.err_no_error g descs []
        ∙ or_else-none (last_count library.err_no_error g descs)))
