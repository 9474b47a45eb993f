-- ===== src/Samples/StringPoolSamples.antt =====
-- Texts interned one after the other.
use putup.Prelude.{◌≡◌, refl, [], codes, bytes_eq, arith}
use putup.Core.RobinHood.{
  index_insert, index_clear, index_find, find_loop, make_room, rebuild, reinsert, probe_insert,
  probe_loop, fix_hash,
}
use putup.Core.StringPool.{
  StringPool, empty_pool, intern, append_text, pool_get, pool_find, text_of, fnv1a, fnv_loop,
}
use putup.Core.StringPool.Keys.{empty-IsPool}
use putup.Core.StringPool.Appended.{IsSmall}
use putup.Core.StringPool.Interned.{IsInterned, intern-IsInterned}

abbrev one_text : StringPool
one_text = (intern (codes "gcc") empty_pool).1

empty-IsSmall : IsSmall empty_pool (codes "gcc")
empty-IsSmall = record { few = omega arith; bytes = omega arith; short = omega arith }

gcc-IsInterned : IsInterned (codes "gcc") empty_pool (intern (codes "gcc") empty_pool)
gcc-IsInterned = intern-IsInterned (codes "gcc") empty_pool [] empty-IsPool empty-IsSmall

one_text-IsSmall : IsSmall one_text (codes "main.c")
unfolding intern append_text index_find index_clear
one_text-IsSmall = record { few = omega arith; bytes = omega arith; short = omega arith }

intern-IsInterned_example : IsInterned (codes "main.c") one_text (intern (codes "main.c") one_text)
intern-IsInterned_example =
    intern-IsInterned (codes "main.c") one_text gcc-IsInterned.rows gcc-IsInterned.pool
      one_text-IsSmall

known_hash : fnv1a (codes "a") ≡ 3826002220
unfolding fnv1a fnv_loop
known_hash = refl

abbrev both_texts : StringPool
both_texts = (intern (codes "main.c") one_text).1

second_number : pool_find (codes "main.c") both_texts ≡ 2
unfolding pool_find intern append_text text_of fnv1a fnv_loop bytes_eq index_find find_loop
    index_insert index_clear make_room rebuild reinsert probe_insert probe_loop fix_hash
second_number = refl

first_kept : pool_get 1 both_texts ≡ codes "gcc"
unfolding pool_get intern append_text text_of fnv1a fnv_loop bytes_eq index_find find_loop
    index_insert index_clear make_room rebuild reinsert probe_insert probe_loop fix_hash
first_kept = refl
