-- ===== src/Util/Split.antt =====
-- `split` of src/include/util.cpp, which takes the addresses of the command line apart.
pub mod Join
use firehose.Base.{
  ℕ, zero, suc, ◌+◌, List, [], ◌∷◌, Option, none, some, if◌then◌else◌, nat_beq, length,
}
use firehose.Api.{Bytes}

-- std::getline: the characters before the delimiter, and those after it; `none` is the end of the
-- stream, after which it is not good().
unfoldable pub getline : ℕ → Bytes → Bytes × Option Bytes
getline delimiter [] = ([], none)
getline delimiter (c ∷ cs) =
    let (line, rest) = getline delimiter cs in
    if nat_beq c delimiter then ([], some cs) else (c ∷ line, rest)

-- The loop, on fuel; `none` is no fuel left.
unfoldable pub split_loop : ℕ → ℕ → Bytes → Option (List Bytes)
split_loop zero delimiter s = none
split_loop (suc fuel) delimiter s =
    let (line, rest) = getline delimiter s in
    elim rest [
      | none ↦ some (line ∷ [])
      | some later ↦ elim (split_loop fuel delimiter later) [
        | none ↦ none
        | some parts ↦ some (line ∷ parts)
      ]
    ]

-- Each round takes a character at least.
unfoldable pub split : Bytes → ℕ → Option (List Bytes)
unfolding split_loop getline
split s delimiter = split_loop (length s + 1) delimiter s
