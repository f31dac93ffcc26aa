-- ===== src/Commissioning/NodeIndex.antt =====
-- winrt/Projection.cpp, LoadCommissionedNodes, PersistCommissionedNodes and the ends of Commission,
-- RecoverNode and RemoveNode: the list of commissioned nodes and its stored copy. The storage is the
-- SDK's delegate: a read of at most so many bytes, with its error, and the errors of a write.
pub mod Loading
use matter_winrt.Base.{
  ℕ, zero, suc, ◌+◌, ◌*◌, ◌/◌, ◌%◌, ◌≤◌, ◌<◌, min, ◌≡◌, refl, Bool, true, false, not, ◌&&◌, ◌||◌,
  ◌==◌, ltb, Option, none, some, List, [], ◌∷◌, ◌++◌, if◌then◌else◌, length, take, Result, ok, err,
}
use matter_winrt.Chip.{ChipError, no_error, value_not_found, buffer_too_small, is_error}

-- A read that succeeds: the bytes it has written, and the words of the buffer after it.
pub record Read : Type 0 where
  pub size : ℕ
  pub words : List ℕ

pub data Loaded : Type 0 where
  -- No index; the new list; E_BOUNDS; CheckChipError; E_UNEXPECTED.
  absent too_large invalid : Loaded
  nodes : List ℕ → Loaded
  failure : ChipError → Loaded

-- UINT16_MAX / sizeof(uint64_t).
abbrev pub maximum_node_count : ℕ
maximum_node_count = 8191

abbrev pub word_size : ℕ
word_size = 8

-- A read that succeeds is taken over, if it has a whole number of words.
pub accept : Read → Loaded
accept r =
    if (r.size == 0) || not (r.size % word_size == 0)
    then invalid
    else nodes (take (r.size / word_size) r.words)

abbrev pub is_absent : ChipError → Bool
is_absent value_not_found = true
is_absent _ = false

abbrev pub is_small : ChipError → Bool
is_small buffer_too_small = true
is_small _ = false

-- One round of the loop with a buffer of so many words, by the outcome of the read: what is returned,
-- or the next number of words.
pub load_outcome : ℕ → Result ChipError Read → Result ℕ Loaded
unfolding accept
load_outcome n (ok r) = ok (accept r)
load_outcome n (err e) =
    if is_absent e
    then ok absent
    else if is_small e
    then (if n == maximum_node_count then ok too_large else err (min (n * 2) maximum_node_count))
    else ok (failure e)

module _ (get : ℕ → Result ChipError Read) where
  pub load_round : ℕ → Result ℕ Loaded
  unfolding load_outcome
  load_round n = load_outcome n (get (n * word_size % 65536))

  -- The loop, from a buffer of one word; the rounds are fuel.
  pub load_from : ℕ → ℕ → Option Loaded
  load_from zero n = none
  load_from (suc rounds) n = elim (load_round n) [ ok r ↦ some r | err m ↦ load_from rounds m ]

  pub load_commissioned_nodes : ℕ → Option Loaded
  load_commissioned_nodes rounds = load_from rounds 1

-- What PersistCommissionedNodes asks of the storage.
pub data Write : Type 0 where
  deletes : Write
  writes : List ℕ → Write
  -- E_BOUNDS.
  refuses : Write

unfoldable pub persist_commissioned_nodes : List ℕ → Write
persist_commissioned_nodes [] = deletes
persist_commissioned_nodes (n ∷ ns) =
    if ltb 65535 (length (n ∷ ns) * word_size) then refuses else writes (n ∷ ns)
