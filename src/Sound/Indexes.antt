-- ===== src/Sound/Indexes.antt =====
-- sound/src/lib.rs: the indexes that `build_conn_list` stores.
use Prim.Native.Nat.{bit_and}
use bare_metal_blasterball.Base.{
  ℕ, ◌+◌, ◌*◌, ◌%◌, ◌^◌, ◌≡◌, ◌≤◌, ◌<◌, true, none, some, ◌==◌, List, [], ◌∷◌, ◌++◌, length,
  all_below, all_below_sound, arith, lt→ltb, ltb-false, refl, sym, ap, ◌∙◌,
}
use mathlib.Core.List.{append-nil, append_assoc}
use bare_metal_blasterball.Sound.Commands.{NodeAddr}
use bare_metal_blasterball.Sound.ConnList.{push_entries}

byte_table : all_below 256 (λ x. bit_and x 0xff == x % 2 ^ 8) ≡ true
byte_table = refl

is_byte : (x : ℕ) → x < 256 → (bit_and x 0xff == x % 2 ^ 8) ≡ true
is_byte x h = all_below_sound 256 (λ x. bit_and x 0xff == x % 2 ^ 8) x byte_table h

-- Every id has 8 bits.
abbrev pub AreBytes : List ℕ → Type 0
AreBytes [] = Unit
AreBytes (x ∷ xs) = (x < 256) × AreBytes xs

-- The nodes of a codec with these ids, numbered from `i` on.
abbrev pub numbered : ℕ → ℕ → List ℕ → List (ℕ × NodeAddr)
numbered codec_addr i [] = []
numbered codec_addr i (x ∷ xs) =
    (i, record { codec_addr = codec_addr; node_id = x }) ∷ numbered codec_addr (i + 1) xs

-- The ids of a batch are stored in order, numbered from the batch's first index times the size of a
-- batch on, where these numbers have 8 bits.
pub push_entries_lem :
    (codec_addr conn_idx no_in_batch entry_idx : ℕ) (xs : List ℕ) (conn_list : List (ℕ × NodeAddr))
    → AreBytes xs
    → conn_idx * no_in_batch + entry_idx + length xs ≤ 256
    → push_entries codec_addr conn_idx no_in_batch entry_idx xs conn_list
      ≡ some (conn_list ++ numbered codec_addr (conn_idx * no_in_batch + entry_idx) xs)
unfolding push_entries
push_entries_lem codec_addr conn_idx no_in_batch entry_idx [] conn_list h l =
    ap some (sym (append-nil conn_list))
push_entries_lem codec_addr conn_idx no_in_batch entry_idx (x ∷ xs) conn_list (b, h) l =
    let first = lt→ltb (conn_idx * no_in_batch) 256 (omega arith) in
    let second = lt→ltb (conn_idx * no_in_batch + entry_idx) 256 (omega arith) in
    let same : x % 2 ^ 8 ≡ x = omega arith in
    let step : conn_idx * no_in_batch + (entry_idx + 1) ≡ conn_idx * no_in_batch + entry_idx + 1 =
      omega arith in
    let node : ℕ × NodeAddr =
      (conn_idx * no_in_batch + entry_idx, record { codec_addr = codec_addr; node_id = x }) in
    let rest =
      push_entries_lem codec_addr conn_idx no_in_batch (entry_idx + 1) xs (conn_list ++ (node ∷ []))
        h (omega arith) in
    rw (is_byte x b, first, second, same)
      (rest
        ∙ ap (λ k. some ((conn_list ++ (node ∷ [])) ++ numbered codec_addr k xs)) step
        ∙ ap some (append_assoc conn_list (node ∷ []) _))

-- A batch that starts at an index whose product with the size of a batch needs more than 8 bits stops
-- the driver, unless the batch is empty.
pub push_entries_overflow :
    (codec_addr conn_idx no_in_batch x : ℕ) (xs : List ℕ) (conn_list : List (ℕ × NodeAddr))
    → x < 256
    → 256 ≤ conn_idx * no_in_batch
    → push_entries codec_addr conn_idx no_in_batch 0 (x ∷ xs) conn_list ≡ none
unfolding push_entries
push_entries_overflow codec_addr conn_idx no_in_batch x xs conn_list b l =
    rw (is_byte x b, ltb-false (conn_idx * no_in_batch) 256 l)
