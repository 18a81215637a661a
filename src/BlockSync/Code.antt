-- ===== src/BlockSync/Code.antt =====
-- src/rds/block_sync.c, the block code: offsets, the syndrome, offset words. A `uint8_t` that
-- holds an `enum rds_offset` is the data type `Offset`: the code stores nothing else there.
pub mod Linear
pub mod Encoder
use mpxcast.Prelude.{
  ℕ, zero, suc, ◌+◌, ◌-◌, ◌*◌, ◌%◌, List, [], ◌∷◌, Bool, bit_xor, get_or, ◌==◌, if◌then◌else◌,
  ◌>>>◌,
}

-- `enum rds_offset`
pub data Offset : Type 0 where
  invalid a b c c_prime d : Offset

-- The numbers of the enumeration.
abbrev pub offset_code : Offset → ℕ
offset_code invalid = 0
offset_code a = 1
offset_code b = 2
offset_code c = 3
offset_code c_prime = 4
offset_code d = 5

-- `x == y`
abbrev pub same_offset : Offset → Offset → Bool
same_offset x y = offset_code x == offset_code y

-- RDS_BLOCK_LENGTH and RDS_CHECKWORD_LENGTH
abbrev pub block_length : ℕ
block_length = 26

abbrev pub checkword_length : ℕ
checkword_length = 10

unfoldable pub get_block_number_for_offset : Offset → ℕ
get_block_number_for_offset invalid = 0
get_block_number_for_offset a = 0
get_block_number_for_offset b = 1
get_block_number_for_offset c = 2
get_block_number_for_offset c_prime = 2
get_block_number_for_offset d = 3

unfoldable pub get_next_offset_for : Offset → Offset
get_next_offset_for invalid = a
get_next_offset_for a = b
get_next_offset_for b = c
get_next_offset_for c = d
get_next_offset_for c_prime = d
get_next_offset_for d = a

abbrev pub parity_check_matrix : List ℕ
parity_check_matrix =
    0b1000000000 ∷ 0b0100000000 ∷ 0b0010000000 ∷ 0b0001000000 ∷ 0b0000100000 ∷ 0b0000010000
    ∷ 0b0000001000 ∷ 0b0000000100 ∷ 0b0000000010 ∷ 0b0000000001 ∷ 0b1011011100 ∷ 0b0101101110
    ∷ 0b0010110111 ∷ 0b1010000111 ∷ 0b1110011111 ∷ 0b1100010011 ∷ 0b1101010101 ∷ 0b1101110110
    ∷ 0b0110111011 ∷ 0b1000000001 ∷ 0b1111011100 ∷ 0b0111101110 ∷ 0b0011110111 ∷ 0b1010100111
    ∷ 0b1110001111 ∷ 0b1100011011 ∷ []

-- The loop at `k`, with `n` rounds left.
syndrome_loop : ℕ → ℕ → ℕ → ℕ → ℕ
syndrome_loop zero k input_vector result = result
syndrome_loop (suc n) k input_vector result =
    let row = get_or parity_check_matrix (25 - k) 0 in
    syndrome_loop n (k + 1) input_vector (bit_xor result (row * ((input_vector >>> k) % 2)))

unfoldable pub calculate_syndrome : ℕ → ℕ
unfolding syndrome_loop
calculate_syndrome input_vector = syndrome_loop 26 0 input_vector 0

unfoldable pub get_offset_for_syndrome : ℕ → Offset
get_offset_for_syndrome syndrome =
    if syndrome == 0b1111011000
    then a
    else if syndrome == 0b1111010100
    then b
    else if syndrome == 0b1001011100
    then c
    else if syndrome == 0b1111001100
    then c_prime
    else if syndrome == 0b1001011000
    then d
    else invalid

-- `offset_words[offset]` of `rds_get_offset_words`; every offset is in range.
unfoldable pub offset_word : Offset → ℕ
offset_word invalid = 0
offset_word a = 0b0011111100
offset_word b = 0b0110011000
offset_word c = 0b0101101000
offset_word c_prime = 0b1101010000
offset_word d = 0b0110110100
