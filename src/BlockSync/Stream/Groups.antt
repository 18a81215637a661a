-- ===== src/BlockSync/Stream/Groups.antt =====
-- src/rds/block_sync.c: the bits of whole error-free blocks, pushed in sync, and the group of four.
use mpxcast.Prelude.{
  ℕ, ◌≡◌, refl, sym, ap, ◌∙◌, subst, ◌⊎◌, inl, inr, Bool, true, false, List, [], ◌∷◌, ◌++◌, map,
  arith, length, set, u16, ◌>>>◌,
}
use mpxcast.Float.{Float}
use mpxcast.BlockSync.Code.{
  Offset, a, b, c, c_prime, d, same_offset, checkword_length, get_block_number_for_offset,
  get_next_offset_for,
}
use mpxcast.BlockSync.Stream.{Block, Group, BlockStream}
use mpxcast.BlockSync.Stream.Receive.{received_block, adjust_expected, push_bit_with_confidence}
use mpxcast.BlockSync.Stream.Valid.{IsValid}
use mpxcast.BlockSync.Stream.Feed.{push_bits, clean_block}
use mpxcast.BlockSync.Stream.WholeBlock.{
  bits_of, offset_of, push_bits-IsValid, TakesBlock, take_block,
}

module _ {F : Type 0} ⦃float : Float F⦄ where
  push_bits-append :
      (xs ys : List (Bool × F)) (s : BlockStream F)
      → push_bits s (xs ++ ys) ≡ push_bits (push_bits s xs) ys
  unfolding push_bits
  push_bits-append [] ys s = refl
  push_bits-append ((bit, confidence) ∷ xs) ys s =
      push_bits-append xs ys (push_bit_with_confidence s bit confidence)

  set_all_four :
      (g : Group F) (w x y z : Block F)
      → length g ≡ 4
      → set (set (set (set g 0 w) 1 x) 2 y) 3 z ≡ w ∷ x ∷ y ∷ z ∷ []
  set_all_four (p ∷ q ∷ r ∷ s ∷ []) w x y z h = refl
  set_all_four [] w x y z h = absurd (omega arith)
  set_all_four (p ∷ []) w x y z h = absurd (omega arith)
  set_all_four (p ∷ q ∷ []) w x y z h = absurd (omega arith)
  set_all_four (p ∷ q ∷ r ∷ []) w x y z h = absurd (omega arith)
  set_all_four (p ∷ q ∷ r ∷ s ∷ t ∷ rest) w x y z h = absurd (omega arith)

  -- What a client reads of a block: its data, whether it was received, whether it had errors.
  abbrev pub summary : Block F → ℕ × Bool × Bool
  summary block = (block.data_bits, block.is_received, block.had_errors)

  -- The data word of 26 bits, received without errors.
  abbrev pub sent : List (Bool × F) → ℕ × Bool × Bool
  sent bits = (u16 (bits_of bits >>> checkword_length), true, false)

  -- Four blocks, one after the other, are handed over as a group.
  four_stored :
      {s t1 t2 t3 t4 : BlockStream F} {o : Offset}
      → (raw1 raw2 raw3 raw4 : ℕ) → TakesBlock s t1 a raw1
      → TakesBlock t1 t2 b raw2
      → TakesBlock t2 t3 o raw3
      → TakesBlock t3 t4 d raw4
      → length s.current_group ≡ 4
      → get_block_number_for_offset o ≡ 2
      → same_offset o d ≡ false
      → (t4.has_group_ready ≡ true)
        × (map summary t4.ready_group
            ≡ (u16 (raw1 >>> checkword_length), true, false)
              ∷ (u16 (raw2 >>> checkword_length), true, false)
              ∷ (u16 (raw3 >>> checkword_length), true, false)
              ∷ (u16 (raw4 >>> checkword_length), true, false)
              ∷ [])
  unfolding get_block_number_for_offset received_block
  four_stored {s = s} {t2 = t2} {t3 = t3} {t4 = t4} raw1 raw2 raw3 raw4 k1 k2 k3 k4 size is_two
        not_d =
      (handed.1, ap (map summary) (handed.0 ∙ four))
    where
      w : Block F
      w = clean_block k1.confidence raw1

      x : Block F
      x = clean_block k2.confidence raw2

      y : Block F
      y = clean_block k3.confidence raw3

      z : Block F
      z = clean_block k4.confidence raw4

      handed : (t4.ready_group ≡ set t3.current_group 3 z) × (t4.has_group_ready ≡ true)
      handed = k4.handed refl

      third_stored : t3.current_group ≡ set t2.current_group 2 y
      third_stored = k3.stored not_d ∙ ap (λ n. set t2.current_group n y) is_two

      four : set t3.current_group 3 z ≡ w ∷ x ∷ y ∷ z ∷ []
      four =
          ap (λ g. set g 3 z)
            (third_stored
              ∙ ap (λ g. set g 2 y) (k2.stored refl ∙ ap (λ g. set g 1 x) (k1.stored refl)))
          ∙ set_all_four s.current_group w x y z size

  module _ (s : BlockStream F) (first second third fourth : List (Bool × F)) where
    abbrev after_four : BlockStream F
    after_four = push_bits s (first ++ (second ++ (third ++ fourth)))

    one_by_one :
        after_four ≡ push_bits (push_bits (push_bits (push_bits s first) second) third) fourth
    one_by_one =
        push_bits-append first (second ++ (third ++ fourth)) s
        ∙ push_bits-append second (third ++ fourth) (push_bits s first)
        ∙ push_bits-append third fourth (push_bits (push_bits s first) second)

    abbrev HoldsFour : BlockStream F → Type 0
    HoldsFour t =
        (t.has_group_ready ≡ true)
        × (map summary t.ready_group ≡ sent first ∷ sent second ∷ sent third ∷ sent fourth ∷ [])
        × (t.is_in_sync ≡ true)
        × (t.bits_until_next_block ≡ 26)
        × (t.expected_offset ≡ a)

    four_blocks :
        (o : Offset)
        → IsValid s
        → s.is_in_sync ≡ true
        → s.bits_until_next_block ≡ 26
        → s.expected_offset ≡ a
        → (length first ≡ 26) × (length second ≡ 26) × (length third ≡ 26) × (length fourth ≡ 26)
        → (offset_of first ≡ a)
          × (offset_of second ≡ b)
          × (offset_of third ≡ o)
          × (offset_of fourth ≡ d)
        → (get_block_number_for_offset o ≡ 2)
          × (get_next_offset_for o ≡ d)
          × (same_offset o d ≡ false)
          × (adjust_expected c o ≡ o)
        → HoldsFour (push_bits (push_bits (push_bits (push_bits s first) second) third) fourth)
    unfolding adjust_expected get_next_offset_for get_block_number_for_offset received_block
    four_blocks o v sync until start len off third_is =
        (stored.0, stored.1, k4.in_sync, k4.until, k4.expected)
      where
        k1 : TakesBlock s (push_bits s first) a (bits_of first)
        k1 = take_block s first a v sync until len.0 off.0 (ap (λ e. adjust_expected e a) start)

        t1 : BlockStream F
        t1 = push_bits s first

        v1 : IsValid t1
        v1 = push_bits-IsValid first s v

        k2 : TakesBlock t1 (push_bits t1 second) b (bits_of second)
        k2 =
            take_block t1 second b v1 k1.in_sync k1.until len.1 off.1
              (ap (λ e. adjust_expected e b) k1.expected)

        t2 : BlockStream F
        t2 = push_bits t1 second

        v2 : IsValid t2
        v2 = push_bits-IsValid second t1 v1

        k3 : TakesBlock t2 (push_bits t2 third) o (bits_of third)
        k3 =
            take_block t2 third o v2 k2.in_sync k2.until len.2 off.2
              (ap (λ e. adjust_expected e o) k2.expected ∙ third_is.3)

        t3 : BlockStream F
        t3 = push_bits t2 third

        k4 : TakesBlock t3 (push_bits t3 fourth) d (bits_of fourth)
        k4 =
            take_block t3 fourth d (push_bits-IsValid third t2 v2) k3.in_sync k3.until len.3 off.3
              (ap (λ e. adjust_expected e d) (k3.expected ∙ third_is.1))

        stored :
            ((push_bits t3 fourth).has_group_ready ≡ true)
            × (map summary (push_bits t3 fourth).ready_group
                ≡ sent first ∷ sent second ∷ sent third ∷ sent fourth ∷ [])
        stored =
            four_stored (bits_of first) (bits_of second) (bits_of third) (bits_of fourth) k1 k2 k3
              k4 v.groups.current.0 third_is.0 third_is.2

  -- From any valid state in sync at the start of a group, the 104 bits of four error-free blocks
  -- with offsets A, B, C or C', D, in this order, make a group ready that holds the four data words
  -- in order, each received without errors, and leave the stream in sync at the start of a group.
  pub group_of_four :
      (s : BlockStream F) (first second third fourth : List (Bool × F))
      → IsValid s
      → s.is_in_sync ≡ true
      → s.bits_until_next_block ≡ 26
      → s.expected_offset ≡ a
      → (length first ≡ 26) × (length second ≡ 26) × (length third ≡ 26) × (length fourth ≡ 26)
      → (offset_of first ≡ a)
        × (offset_of second ≡ b)
        × ((offset_of third ≡ c) ⊎ (offset_of third ≡ c_prime))
        × (offset_of fourth ≡ d)
      → let t = push_bits s (first ++ (second ++ (third ++ fourth))) in
        (t.has_group_ready ≡ true)
        × (map summary t.ready_group ≡ sent first ∷ sent second ∷ sent third ∷ sent fourth ∷ [])
        × (t.is_in_sync ≡ true)
        × (t.bits_until_next_block ≡ 26)
        × (t.expected_offset ≡ a)
  unfolding adjust_expected get_next_offset_for get_block_number_for_offset
  group_of_four s first second third fourth v sync until start len (o1, o2, inl is_c, o4) =
      subst (HoldsFour s first second third fourth) (sym (one_by_one s first second third fourth)) (
        four_blocks s first second third fourth c v sync until start len (o1, o2, is_c, o4)
          (refl, refl, refl, refl))
  group_of_four s first second third fourth v sync until start len (o1, o2, inr is_c_prime, o4) =
      subst (HoldsFour s first second third fourth) (sym (one_by_one s first second third fourth)) (
        four_blocks s first second third fourth c_prime v sync until start len
          (o1, o2, is_c_prime, o4) (refl, refl, refl, refl))
