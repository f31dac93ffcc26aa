-- ===== src/Commissioning/Tests.antt =====
-- Commissioning (winrt/Projection.cpp) on concrete callbacks and storage.
use matter_winrt.Base.{
  ℕ, ◌≡◌, refl, true, false, none, some, List, [], ◌∷◌, Result, ok, err, ltb, if◌then◌else◌, arith,
}
use matter_winrt.Chip.{ChipError, no_error, timeout, buffer_too_small}
use matter_winrt.Commissioning.Stages.{send_complete, secure_pairing}
use matter_winrt.Commissioning.Pairing.{
  Callback, starts, updates, fails, attests, initial, reset, run,
}
use matter_winrt.Commissioning.Pairing.Outcome
use matter_winrt.Commissioning.NodeIndex.{
  Read, nodes, writes, load_commissioned_nodes, persist_commissioned_nodes,
}
use matter_winrt.Commissioning.NodeIndex.Loading

-- A device that is not trusted, and the failure that follows.
abbrev callbacks : List Callback
callbacks =
    starts secure_pairing
    ∷ updates secure_pairing no_error
    ∷ attests false no_error
    ∷ fails (record { err = timeout; failed_stage = some send_complete })
    ∷ []

pairing_ends_with_example :
    Outcome.verdict false (run false (reset true initial) callbacks)
    ≡ Outcome.last_ending false none callbacks
pairing_ends_with_example = Outcome.pairing_ends_with false true initial callbacks

abbrev three_nodes : List ℕ
three_nodes = 5 ∷ 6 ∷ 7 ∷ []

-- A storage that holds three nodes.
abbrev storage : ℕ → Result ChipError Read
storage bytes =
    if ltb bytes 24 then err buffer_too_small else ok (record { size = 24; words = three_nodes })

storage-Holds : Loading.Holds storage three_nodes
storage-Holds = record {
  small = λ bytes h. ground arith;
  fits = λ bytes h. (record { size = 24; words = three_nodes }, ground arith, refl, refl);
}

three_written : persist_commissioned_nodes three_nodes ≡ writes three_nodes
unfolding persist_commissioned_nodes
three_written = refl

persist_load_example : load_commissioned_nodes storage 14 ≡ some (nodes three_nodes)
persist_load_example =
    Loading.persist_load storage three_nodes three_nodes three_written storage-Holds
