-- ===== src/Sound/Buffers.antt =====
-- sound/src/lib.rs: `BufferDescriptorList`, the buffers that a stream plays in turn. `none` is a panic.
use bare_metal_blasterball.Base.{
  ℕ, zero, suc, ◌+◌, ◌-◌, ◌%◌, ◌^◌, ◌≤◌, ◌<◌, ◌≡◌, ◌≢◌, ◌⊎◌, inl, inr, Option, none, some, ◌>>=◌,
  ◌>>◌, ◌==◌, leb, assert, if◌then◌else◌, Result, ok, err, List, length, get_elem?, set, replicate,
  length-set, length-replicate, get_elem?-set_self, get_elem?-set_ne, arith, refl, ap, ◌∙◌,
  leb-true, leb-false, dec_lt, Option-cases,
}

pub record Entry : Type 0 where
  pub addr : ℕ
  pub len : ℕ
  pub interrupt_on_completion : ℕ

abbrev pub null_entry : Entry
null_entry = record { addr = 0; len = 0; interrupt_on_completion = 1 }

unfoldable pub new_entry : ℕ → ℕ → Option Entry
new_entry addr len = do
  assert (leb len (2 ^ 32 - 1))
  some (record { addr = addr; len = len % 2 ^ 32; interrupt_on_completion = 1 })

pub record DescriptorList : Type 0 where
  pub entries : List Entry
  pub next_index : ℕ

unfoldable pub new_list : DescriptorList
new_list = record { entries = replicate 256 null_entry; next_index = 0 }

unfoldable pub add_entry : Entry → DescriptorList → Result DescriptorList (Unit {0})
add_entry entry l =
    if leb 256 l.next_index
    then err tt
    else ok (record { entries = set l.entries l.next_index entry; next_index = l.next_index + 1 })

-- The fold over `0..next_index`, with the rounds that are left first; an index that is out of bounds is a
-- panic.
unfoldable pub sum_lens : ℕ → ℕ → ℕ → List Entry → Option ℕ
sum_lens zero i acc entries = some acc
sum_lens (suc rounds) i acc entries = do
  entry ← get_elem? entries i
  sum_lens rounds (i + 1) (acc + entry.len) entries

unfoldable pub data_bytes_len : DescriptorList → Option ℕ
unfolding sum_lens
data_bytes_len l = sum_lens l.next_index 0 0 l.entries

abbrev pub clear_entries : DescriptorList → DescriptorList
clear_entries l = record l { next_index = 0 }

-- `OutputStream::setup_sound_stream`: the list, and the length of the cyclic buffer.
unfoldable pub setup_sound_stream : Entry → DescriptorList → Option (DescriptorList × ℕ)
unfolding add_entry data_bytes_len
setup_sound_stream entry l = do
  assert (l.next_index == 0)
  elim (add_entry entry l) [
    | err _ ↦ none
    | ok l1 ↦ elim (add_entry entry l1) [
      | err _ ↦ none
      | ok l2 ↦ (do len ← data_bytes_len l2; assert (leb len (2 ^ 32 - 1)); some (l2, len % 2 ^ 32))
    ]
  ]

pub record IsList (l : DescriptorList) : Type 0 where
  pub full_length : length l.entries ≡ 256
  pub in_bounds : l.next_index ≤ 256

pub new_list-IsList : IsList new_list
unfolding new_list
new_list-IsList = record { full_length = length-replicate 256 null_entry; in_bounds = omega arith }

-- The sum over one round more.
sum_snoc :
    (rounds i acc n : ℕ) (entries : List Entry) (entry : Entry)
    → sum_lens rounds i acc entries ≡ some n
    → get_elem? entries (i + rounds) ≡ some entry
    → sum_lens (suc rounds) i acc entries ≡ some (n + entry.len)
unfolding sum_lens
sum_snoc zero i acc n entries entry h e =
    let here : i ≡ i + 0 = omega arith in
    let same : acc ≡ n = cc in rw (ap (get_elem? entries) here ∙ e, same) refl
sum_snoc (suc rounds) i acc n entries entry h e = elim (Option-cases (get_elem? entries i)) [
  | inl gone ↦ absurd (cc (rw gone at h))
  | inr (x, there) ↦
      (let last : i + 1 + rounds ≡ i + suc rounds = omega arith in
        rw there (
          sum_snoc rounds (i + 1) (acc + x.len) n entries entry (rw there at h)
            (ap (get_elem? entries) last ∙ e)))
]

-- A write behind what is summed
sum_set :
    (rounds i acc j : ℕ) (entries : List Entry) (entry : Entry)
    → i + rounds ≤ j
    → sum_lens rounds i acc (set entries j entry) ≡ sum_lens rounds i acc entries
unfolding sum_lens
sum_set zero i acc j entries entry h = refl
sum_set (suc rounds) i acc j entries entry h =
    let apart : j ≢ i = (λ e. omega (arith, e)) in
    let same = get_elem?-set_ne entries entry apart in
    elim (Option-cases (get_elem? entries i)) [
      | inl gone ↦ rw (same, gone)
      | inr (x, there) ↦
          rw (same, there) (sum_set rounds (i + 1) (acc + x.len) j entries entry (omega arith))
    ]

-- Of a list that is not full, `add_entry` returns the list with the entry behind the others: its bytes are
-- those of before and the entry's. Of a full list it returns an error.
pub add_entry_lem :
    (entry : Entry) (l : DescriptorList) (n : ℕ)
    → IsList l
    → data_bytes_len l ≡ some n
    → ((l.next_index < 256)
        × ((l' : DescriptorList) × (add_entry entry l ≡ ok l')
            × IsList l'
            × (l'.next_index ≡ l.next_index + 1)
            × (get_elem? l'.entries l.next_index ≡ some entry)
            × (data_bytes_len l' ≡ some (n + entry.len))))
      ⊎ ((l.next_index ≡ 256) × (add_entry entry l ≡ err tt))
unfolding add_entry data_bytes_len
add_entry_lem entry l n h e = elim (dec_lt l.next_index 256) [
  | yes k ↦
      (let there = get_elem?-set_self l.entries l.next_index entry (omega (arith, h.full_length)) in
        let before = sum_set l.next_index 0 0 l.next_index l.entries entry (omega arith) ∙ e in
        let place : 0 + l.next_index ≡ l.next_index = omega arith in
        let count : l.next_index + 1 ≡ suc l.next_index = omega arith in
        let entries' = set l.entries l.next_index entry in
        inl (
          k,
          (
            record { entries = entries'; next_index = l.next_index + 1 },
            rw (leb-false 256 l.next_index k),
            record {
              full_length = length-set l.entries l.next_index entry ∙ h.full_length;
              in_bounds = omega arith;
            },
            refl,
            there,
            ap (λ c. sum_lens c 0 0 entries') count
                ∙ sum_snoc l.next_index 0 0 n entries' entry before
                    (ap (get_elem? entries') place ∙ there),
          ),
        ))
  | no k ↦ inr (omega (arith, h.in_bounds), rw (leb-true 256 l.next_index (omega arith)))
]
