-- ===== src/Consumer/Log.antt =====
-- Consumer::on_publish_receive of src/firehose/consumer.cpp: the lines of the log and their parts.
use firehose.Base.{
  ℕ, zero, suc, map, ap₂, ◌-◌, ◌+◌, ◌*◌, ◌/◌, ◌%◌, ◌≤◌, ◌<◌, ◌≡◌, refl, ap, ◌∙◌, List, [], ◌∷◌,
  ◌++◌, some, arith, Bool-cases, inl, inr, ltb, sub_u64, push_back, count, count-nil, count-cons,
  count-append, nat_eq,
}
use firehose.Api.{Bytes, RequestPublish}
use firehose.Util.Split.{split}
use firehose.Util.Split.Join.{join, nil, cons, split-join}
use firehose.Consumer.{Consumer, digits, to_string, comma, on_publish_receive}

digits_clean : (fuel n : ℕ) → count comma (digits fuel n) ≡ 0
unfolding digits
digits_clean zero n = count-nil comma
digits_clean (suc fuel) n = ground (
  arith,
  digits_clean fuel (n / 10),
  count-cons comma (48 + n) [],
  count-nil comma,
  count-cons comma (48 + n % 10) [],
  count-append comma (digits fuel (n / 10)) ((48 + n % 10) ∷ []),
)

to_string_clean : (n : ℕ) → count comma (to_string n) ≡ 0
unfolding to_string
to_string_clean n = digits_clean (n + 1) n

-- The number that a text of decimal digits stands for, after a number that stands before it.
unfoldable pub value_from : ℕ → Bytes → ℕ
value_from n [] = n
value_from n (c ∷ cs) = value_from (10 * n + (c - 48)) cs

value_from-append :
    (n c : ℕ) (cs : Bytes) → value_from n (cs ++ c ∷ []) ≡ 10 * value_from n cs + (c - 48)
unfolding value_from
value_from-append n c [] = refl
value_from-append n c (d ∷ cs) = value_from-append (10 * n + (d - 48)) c cs

value_from-nil : value_from 0 [] ≡ 0
unfolding value_from
value_from-nil = refl

value_from-digits : (fuel n : ℕ) → n < fuel → value_from 0 (digits fuel n) ≡ n
unfolding digits
value_from-digits zero n h = absurd (omega arith)
value_from-digits (suc fuel) n h = elim (Bool-cases (ltb n 10)) [
  | inl e ↦
      let one : digits (suc fuel) n ≡ (48 + n) ∷ [] = ground arith in
      ap (value_from 0) one ∙ omega (arith, value_from-append 0 (48 + n) [], value_from-nil)
  | inr e ↦
      let more : digits (suc fuel) n ≡ digits fuel (n / 10) ++ (48 + n % 10) ∷ [] = ground arith in
      let large : 10 ≤ n = ground arith in
      ap (value_from 0) more
      ∙ omega (
        arith,
        value_from-append 0 (48 + n % 10) (digits fuel (n / 10)),
        value_from-digits fuel (n / 10) (omega arith),
      )
]

-- A decimal text of a number stands for the number.
value_from-to_string : (n : ℕ) → value_from 0 (to_string n) ≡ n
unfolding to_string
value_from-to_string n = value_from-digits (n + 1) n (omega arith)

-- A publication adds one line to the log, and the parts of the line between its commas are the
-- decimal texts of the time, the topic, the global id and the time since the publication's timestamp.
pub split-on_publish_receive :
    (now later : ℕ) (c : Consumer) (r : RequestPublish)
    → (line : Bytes) × (parts : List Bytes) × ((on_publish_receive now later c r).log_buffer
        ≡ push_back c.log_buffer line)
      × (split line comma ≡ some parts)
      × (map (value_from 0) parts ≡ now ∷ r.topic_id ∷ r.global_id ∷ sub_u64 later r.timestamp ∷ [])
unfolding on_publish_receive join
split-on_publish_receive now later c r =
    let number = λ (n : ℕ). to_string n in
    let latency = sub_u64 later r.timestamp in
    (
      _,
      number now ∷ number r.topic_id ∷ number r.global_id ∷ number latency ∷ [],
      refl,
      split-join comma (to_string now)
          (to_string r.topic_id ∷ to_string r.global_id ∷ to_string latency ∷ [])
          (cons _ _ (to_string_clean now) (
            cons _ _ (to_string_clean r.topic_id)
              (cons _ _ (to_string_clean r.global_id) (cons _ _ (to_string_clean latency) nil)))),
      ap₂ ◌∷◌ (value_from-to_string now) (
          ap₂ ◌∷◌ (value_from-to_string r.topic_id) (
            ap₂ ◌∷◌ (value_from-to_string r.global_id)
              (ap₂ ◌∷◌ (value_from-to_string latency) refl))),
    )
