-- ===== src/Generator/Dedup/Tests.antt =====
-- The logger's theorems at a concrete run: a message twice, then `Close`.
use cdnnow_test_golang.Shared.{◌+◌, ◌≡◌, refl, true, List, [], ◌∷◌, ◌++◌, arith}
use cdnnow_test_golang.Generator.Dedup.{
  Msg, Cmd, cmd_log, cmd_close, once, more, Dedup, new_dedup, bump, remember, log, print_more,
  flush_entries, force_flush, send, on_cmd, cmd_arrives, serve, Runs, start, sends, round,
}
use cdnnow_test_golang.Generator.Dedup.Account.{logged, shown, pending}
use cdnnow_test_golang.Generator.Dedup.Close.{closes, messages_accounted, close_prints_all}

abbrev hi : Msg
hi = b'h' ∷ b'i' ∷ []

abbrev handed : List Cmd
handed = cmd_log hi ∷ cmd_log hi ∷ cmd_close ∷ []

closed :
    (d : Dedup) × Runs (new_dedup 4 100) handed d
    × (d.done ≡ true)
    × (d.printed ≡ once hi ∷ more hi 1 ∷ [])
unfolding new_dedup send serve on_cmd log remember bump force_flush flush_entries print_more
closed = (
  _,
  round (cmd_arrives 12)
      (round (cmd_arrives 11)
        (round (cmd_arrives 10)
          (sends cmd_close
            (sends (cmd_log hi) (sends (cmd_log hi) start (omega arith) refl) (omega arith) refl)
            (omega arith) refl)
          refl)
        refl)
      refl,
  refl,
  refl,
)

messages_accounted_example :
    (taken : List Cmd) × (handed ≡ taken ++ closed.0.cmds)
    × ((m : Msg) → shown m closed.0.printed + pending m closed.0.last_msgs ≡ logged m taken)
messages_accounted_example = messages_accounted 4 100 closed.1

close_prints_all_example :
    (before : List Cmd) × (handed ≡ before ++ cmd_close ∷ closed.0.cmds)
    × (closes before ≡ 0)
    × ((m : Msg) → shown m closed.0.printed ≡ logged m before)
close_prints_all_example = close_prints_all 4 100 closed.1 closed.2
