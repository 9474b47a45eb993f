-- ===== src/Samples/RobinHoodSamples.antt =====
-- Entries whose hashes share a home, and what is found.
use putup.Prelude.{ℕ, ◌≡◌, refl, Bool, [], ◌∷◌, ◌==◌, arith}
use putup.Core.RobinHood.{
  index_insert, index_clear, index_find, find_loop, found, missing, make_room, rebuild, reinsert,
  probe_insert, probe_loop, fix_hash,
}
use putup.Core.RobinHood.Refines.{Entries, inserts, Answers, index_find-Answers}

abbrev crowded : Entries
crowded = (21, 7) ∷ (6, 4) ∷ (5, 2) ∷ (37, 9) ∷ []

abbrev is_seven : ℕ → Bool
is_seven v = v == 7

seven_found : index_find 21 is_seven (inserts crowded) ≡ found 7
unfolding index_find find_loop index_insert index_clear make_room rebuild reinsert probe_insert
    probe_loop fix_hash
seven_found = refl

not_under_six : index_find 6 is_seven (inserts crowded) ≡ missing
unfolding index_find find_loop index_insert index_clear make_room rebuild reinsert probe_insert
    probe_loop fix_hash
not_under_six = refl

-- the hash 21 is two slots from its home here, where the hash 6 was one slot from its own
displaced : ((inserts crowded).slots 7).hash ≡ 21
unfolding index_insert index_clear make_room rebuild reinsert probe_insert probe_loop fix_hash
displaced = refl

index_find-Answers_example :
    Answers crowded (fix_hash 21) is_seven (index_find 21 is_seven (inserts crowded))
index_find-Answers_example = index_find-Answers crowded (omega arith) 21 is_seven
