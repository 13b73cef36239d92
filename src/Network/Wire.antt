-- ===== src/Network/Wire.antt =====
-- The pre-header of a message: `uint64_t pre_header[6]` as the 48 bytes that asio::buffer passes on.
-- Both ends are taken to be little-endian, as the source copies words without conversion.
use firehose.Base.{
  ℕ, zero, suc, ◌+◌, ◌*◌, ◌/◌, ◌%◌, ◌^◌, ◌<◌, ◌≡◌, refl, ap, subst, [], ◌∷◌, ◌++◌, arith,
  append-nil, length, u64_mod,
}
use native.Mathlib.Nat.{pow-suc}
use firehose.Api.{Bytes}

-- The size of the buffers of the sender and the receiver.
abbrev pub max_header_len : ℕ
max_header_len = 10 * 1024 * 1024

-- pre_header[0] to pre_header[5]
pub record PreHeader : Type 0 where
  pub header_len : ℕ
  pub body_len : ℕ
  pub msg_type : ℕ
  pub msg_id : ℕ
  pub sent_at : ℕ
  pub local_delta : ℕ

-- The low `n` bytes of a word, the lowest first.
unfoldable pub word_bytes : ℕ → ℕ → Bytes
word_bytes zero w = []
word_bytes (suc n) w = (w % 256) ∷ word_bytes n (w / 256)

-- A word read back from the next `n` bytes, and the bytes after it.
unfoldable pub read_word : ℕ → Bytes → ℕ × Bytes
read_word zero bytes = (0, bytes)
read_word (suc n) [] = (0, [])
read_word (suc n) (b ∷ bytes) = let (w, rest) = read_word n bytes in (b + 256 * w, rest)

-- A word that fits in the bytes is read back, and what follows it stays.
read_word-word_bytes :
    (n w : ℕ) (rest : Bytes) → w < 256 ^ n → read_word n (word_bytes n w ++ rest) ≡ (w, rest)
unfolding read_word word_bytes
read_word-word_bytes zero w rest h = let w_zero : w ≡ 0 = omega arith in rw w_zero
read_word-word_bytes (suc n) w rest h =
    let step : 256 ^ suc n ≡ 256 ^ n * 256 = pow-suc 256 n in
    let later : read_word n (word_bytes n (w / 256) ++ rest) ≡ (w / 256, rest) =
      read_word-word_bytes n (w / 256) rest (omega (arith, step)) in
    rw later (ground arith)

unfoldable pub pre_header_bytes : PreHeader → Bytes
pre_header_bytes p =
    word_bytes 8 p.header_len
    ++ (word_bytes 8 p.body_len
        ++ (word_bytes 8 p.msg_type
            ++ (word_bytes 8 p.msg_id ++ (word_bytes 8 p.sent_at ++ word_bytes 8 p.local_delta))))

unfoldable pub read_pre_header : Bytes → PreHeader
read_pre_header bytes =
    let (header_len, r₁) = read_word 8 bytes in
    let (body_len, r₂) = read_word 8 r₁ in
    let (msg_type, r₃) = read_word 8 r₂ in
    let (msg_id, r₄) = read_word 8 r₃ in
    let (sent_at, r₅) = read_word 8 r₄ in
    let (local_delta, r₆) = read_word 8 r₅ in
    record {
      header_len = header_len;
      body_len = body_len;
      msg_type = msg_type;
      msg_id = msg_id;
      sent_at = sent_at;
      local_delta = local_delta;
    }

pub record IsWords (p : PreHeader) : Type 0 where
  pub header_len : p.header_len < u64_mod
  pub body_len : p.body_len < u64_mod
  pub msg_type : p.msg_type < u64_mod
  pub msg_id : p.msg_id < u64_mod
  pub sent_at : p.sent_at < u64_mod
  pub local_delta : p.local_delta < u64_mod

pub length-word_bytes : (n w : ℕ) → length (word_bytes n w) ≡ n
unfolding word_bytes
length-word_bytes zero w = refl
length-word_bytes (suc n) w = ap suc (length-word_bytes n (w / 256))

pub length-pre_header_bytes : (p : PreHeader) → length (pre_header_bytes p) ≡ 48
unfolding pre_header_bytes word_bytes
length-pre_header_bytes p = refl

read_word-last : (n w : ℕ) → w < 256 ^ n → read_word n (word_bytes n w) ≡ (w, [])
read_word-last n w h =
    subst (λ (b : Bytes). read_word n b ≡ (w, [])) (append-nil (word_bytes n w))
      (read_word-word_bytes n w [] h)

-- A pre-header whose fields are 64-bit words is read back from its bytes.
pub read_pre_header-pre_header_bytes :
    (p : PreHeader) → IsWords p → read_pre_header (pre_header_bytes p) ≡ p
unfolding read_pre_header pre_header_bytes
read_pre_header-pre_header_bytes p v = simp (
  read_word-word_bytes 8 p.header_len _ v.header_len,
  read_word-word_bytes 8 p.body_len _ v.body_len,
  read_word-word_bytes 8 p.msg_type _ v.msg_type,
  read_word-word_bytes 8 p.msg_id _ v.msg_id,
  read_word-word_bytes 8 p.sent_at _ v.sent_at,
  read_word-last 8 p.local_delta v.local_delta,
)
