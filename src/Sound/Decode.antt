-- ===== src/Sound/Decode.antt =====
-- sound/src/lib.rs: what a codec reads from the words that the commands are.
use bare_metal_blasterball.Base.{ℕ, ◌-◌, ◌^◌, ◌<◌, ◌≤◌, ◌≡◌, some, arith, ap, ap₂, ◌∙◌, inl}
use bare_metal_blasterball.Num.Masks.{IsRange}
use bare_metal_blasterball.Num.Fields.{store}
use bare_metal_blasterball.Sound.Verbs.{field, long_verb}
use bare_metal_blasterball.Sound.Commands.{command}

abbrev range32 : (start end : ℕ) → start < end → end ≤ 32 → IsRange 32 start end
range32 start end o b = record { word = omega arith; order = o; bound = b }

-- The fields of a verb
pub long_verb-fields :
    (id payload : ℕ)
    → id < 2 ^ 12
    → payload < 2 ^ 8
    → (v : ℕ) × (long_verb id payload ≡ some v)
      × (v < 2 ^ 20)
      × (field 0 8 v ≡ some payload)
      × (field 8 20 v ≡ some id)
unfolding long_verb
long_verb-fields id payload i p =
    let (a, e, s) = store payload 0 (range32 0 8 (omega arith) (omega arith)) p (omega arith) in
    let (b, f, t) = store id a (range32 8 20 (omega arith) (omega arith)) i s.small in
    (
      b,
      rw (e, f),
      t.bounded 20 (omega arith) (s.bounded 20 (omega arith) (omega arith)),
      t.others (range32 0 8 (omega arith) (omega arith)) (inl (omega arith)) ∙ s.same,
      t.same,
    )

-- `command` of a codec's address of 4 bits, a node's id of 8 bits and a verb of 20 bits returns without a
-- panic a word in which each of them is read back from its place.
pub command-fields :
    (codec_addr node_id verb : ℕ)
    → codec_addr < 2 ^ 4
    → node_id < 2 ^ 8
    → verb < 2 ^ 20
    → (c : ℕ) × (command codec_addr node_id (some verb) ≡ some c)
      × (field 28 32 c ≡ some codec_addr)
      × (field 20 28 c ≡ some node_id)
      × ((start end : ℕ)
          → IsRange 32 start end
          → end ≤ 20
          → field start end c ≡ field start end verb)
unfolding command
command-fields codec_addr node_id verb h i j =
    let r0 = range32 0 20 (omega arith) (omega arith) in
    let r20 = range32 20 28 (omega arith) (omega arith) in
    let r28 = range32 28 32 (omega arith) (omega arith) in
    let (a, e, s) = store verb 0 r0 j (omega arith) in
    let (b, f, t) = store node_id a r20 i s.small in
    let (c, g, u) = store codec_addr b r28 h t.small in
    (
      c,
      rw (e, f, g),
      u.same,
      u.others r20 (inl (omega arith)) ∙ t.same,
      λ start end r l.
          let from : start - 0 ≡ start = omega arith in
          let to : end - 0 ≡ end = omega arith in
          u.others r (inl (omega arith))
          ∙ t.others r (inl (omega arith))
          ∙ s.within r (omega arith) l
          ∙ ap₂ (λ x y. field x y verb) from to,
    )

-- A verb of a 12-bit id and a payload of 8 bits, sent to a node: the codec reads the address, the node,
-- the id and the payload back from the word, and no step on the way panics.
pub long_command-fields :
    (codec_addr node_id id payload : ℕ)
    → codec_addr < 2 ^ 4
    → node_id < 2 ^ 8
    → id < 2 ^ 12
    → payload < 2 ^ 8
    → (c : ℕ) × (command codec_addr node_id (long_verb id payload) ≡ some c)
      × (field 28 32 c ≡ some codec_addr)
      × (field 20 28 c ≡ some node_id)
      × (field 8 20 c ≡ some id)
      × (field 0 8 c ≡ some payload)
long_command-fields codec_addr node_id id payload h i j k =
    let (v, e, l, p, q) = long_verb-fields id payload j k in
    let (c, f, a, b, rest) = command-fields codec_addr node_id v h i l in
    (
      c,
      ap (command codec_addr node_id) e ∙ f,
      a,
      b,
      rest 8 20 (range32 8 20 (omega arith) (omega arith)) (omega arith) ∙ q,
      rest 0 8 (range32 0 8 (omega arith) (omega arith)) (omega arith) ∙ p,
    )
