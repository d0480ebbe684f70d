-- ===== src/Sound/ConnList.antt =====
-- sound/src/lib.rs: `build_conn_list`, which asks a node for its connections in batches. What the
-- commander responds to a command is a parameter. `none` is a panic.
use Prim.Native.Nat.{bit_and}
use bare_metal_blasterball.Base.{
  ℕ, zero, suc, ◌+◌, ◌*◌, ◌%◌, ◌^◌, Bool, Option, none, some, ◌>>=◌, ◌>>◌, ◌==◌, ltb, assert,
  if◌then◌else◌, Result, ok, err, List, [], ◌∷◌, ◌++◌,
}
use bare_metal_blasterball.Sound.Commands.{
  NodeAddr, command, get_conn_list_len, get_conn_list_entry,
}
use bare_metal_blasterball.Sound.Verbs.{long_verb}
use bare_metal_blasterball.Sound.Responses.{
  nonzero, long_form, conn_list_len, entries_of, next_entry,
}

-- A sum and a product of `u8`
abbrev pub checked_u8 : ℕ → Option ℕ
checked_u8 n = if ltb n (2 ^ 8) then some n else none

-- `(i..len).step_by(step)`, with fuel
unfoldable pub indices : ℕ → ℕ → ℕ → ℕ → List ℕ
indices zero i len step = []
indices (suc fuel) i len step =
    let rest = indices fuel (i + step) len step in if ltb i len then i ∷ rest else []

-- The inner loop, from entry `entry_idx` on.
unfoldable pub push_entries :
    ℕ → ℕ → ℕ → ℕ → List ℕ → List (ℕ × NodeAddr) → Option (List (ℕ × NodeAddr))
push_entries codec_addr conn_idx no_in_batch entry_idx [] conn_list = some conn_list
push_entries codec_addr conn_idx no_in_batch entry_idx (x ∷ xs) conn_list = do
  assert (bit_and x 0xff == x % 2 ^ 8)
  start ← checked_u8 (conn_idx * no_in_batch)
  i ← checked_u8 (start + entry_idx)
  push_entries codec_addr conn_idx no_in_batch (entry_idx + 1) xs
      (conn_list ++ ((i, record { codec_addr = codec_addr; node_id = x % 2 ^ 8 }) ∷ []))

module _ {ℓ} {S : Type ℓ} (ask : S → ℕ → ℕ × S) where
  -- One round of the outer loop
  unfoldable pub push_batch :
      NodeAddr → Bool → ℕ → ℕ → List (ℕ × NodeAddr) → S → Option (List (ℕ × NodeAddr) × S)
  unfolding command long_verb entries_of next_entry push_entries
  push_batch node long no_in_batch conn_idx conn_list s = do
    c ← get_conn_list_entry node.codec_addr node.node_id conn_idx
    let (response, s') = ask s c in
        do
          resp ← nonzero response
          conn_list' ←
              push_entries node.codec_addr conn_idx no_in_batch 0
                (entries_of 5 (record { entries = resp; long = long; curr_index = 0 })) conn_list
          some (conn_list', s')

  unfoldable pub push_batches :
      NodeAddr → Bool → ℕ → List ℕ → List (ℕ × NodeAddr) → S → Option (List (ℕ × NodeAddr) × S)
  unfolding push_batch
  push_batches node long no_in_batch [] conn_list s = some (conn_list, s)
  push_batches node long no_in_batch (i ∷ is) conn_list s = do
    (conn_list', s') ← push_batch node long no_in_batch i conn_list s
    push_batches node long no_in_batch is conn_list' s'

  -- `err` is the early return, where the node gives no length.
  unfoldable pub build_conn_list :
      NodeAddr → List (ℕ × NodeAddr) → S → Option (Result (List (ℕ × NodeAddr)) (Unit {0}) × S)
  unfolding command long_verb push_batches indices
  build_conn_list node conn_list s = do
    c ← get_conn_list_len node.codec_addr node.node_id
    let (response, s') = ask s c in
        if response == 0 then some (err tt, s') else (do
          long ← long_form response
          len ← conn_list_len response
          let no_in_batch = if long then 2 else 4 in
              do
                (conn_list', s'') ←
                    push_batches node long no_in_batch (indices len 0 len no_in_batch) conn_list s'
                some (ok conn_list', s''))
