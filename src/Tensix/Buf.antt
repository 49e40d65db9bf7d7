-- ===== src/Tensix/Buf.antt =====
-- src/tensix/rv_buf.c. The words written are the list; `n` is its length.
use booth.Base.{
  ℕ, ◌+◌, ◌*◌, ◌%◌, ◌^◌, leb, if◌then◌else◌, List, [], ◌∷◌, ◌++◌, length, set, ℤ, pos, negsuc, ◌-◌,
  signed,
}

abbrev pub rv_buf_max_words : ℕ
rv_buf_max_words = 4096

pub record RvBuf : Type 0 where
  pub words : List ℕ

unfoldable pub rv_buf_init : RvBuf
rv_buf_init = record { words = [] }

-- The index of the word, or -1.
unfoldable pub rv_buf_emit : RvBuf → ℕ → RvBuf × ℤ
rv_buf_emit b word =
    if leb rv_buf_max_words (length b.words)
    then (b, negsuc 0)
    else (record { words = b.words ++ word ∷ [] }, pos (length b.words))

unfoldable pub rv_buf_patch : RvBuf → ℕ → ℕ → RvBuf × ℤ
rv_buf_patch b idx word =
    if leb (length b.words) idx
    then (b, negsuc 0)
    else (record { words = set b.words idx word }, pos 0)

unfoldable pub rv_buf_n_words : RvBuf → ℕ
rv_buf_n_words b = length b.words

unfoldable pub rv_buf_nbytes : RvBuf → ℕ
rv_buf_nbytes b = length b.words * 4 % 2 ^ 32

unfoldable pub rv_buf_data : RvBuf → List ℕ
rv_buf_data b = b.words

-- `((int32_t)to - (int32_t)from) * 4`
unfoldable pub rv_buf_offset : RvBuf → (from to : ℕ) → ℤ
rv_buf_offset b from to = signed 32 ((to + (2 ^ 32 - from)) % 2 ^ 32 * 4 % 2 ^ 32)
