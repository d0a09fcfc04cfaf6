-- ===== src/Generator/Dedup/Close.antt =====
-- The logger over a whole run, and what `Close` guarantees.
use cdnnow_test_golang.Shared.{
  ℕ, suc, ◌+◌, ◌<◌, ◌≡◌, refl, ap, sym, ◌∙◌, subst, Bool, true, false, List, [], ◌∷◌, ◌++◌, length,
  arith, append_assoc, append-nil, if◌then◌else◌,
}
use cdnnow_test_golang.Calculators.Server.{Outcome, accepted, blocked}
use cdnnow_test_golang.Generator.Dedup.{
  Msg, Cmd, cmd_log, cmd_close, Dedup, new_dedup, log, force_flush, maybe_flush, send, on_cmd,
  Event, cmd_arrives, ticks, serve, Runs, start, sends, hands_over, round,
}
use cdnnow_test_golang.Generator.Dedup.Account.{
  logged, shown, pending, known, logged-append, log-known, log-keeps, force_flush-known,
  maybe_flush-known,
}

abbrev pub closes : List Cmd → ℕ
closes [] = 0
closes (cmd_log k ∷ cmds) = closes cmds
closes (cmd_close ∷ cmds) = suc (closes cmds)

closes-append : (cs ds : List Cmd) → closes (cs ++ ds) ≡ closes cs + closes ds
closes-append [] ds = omega arith
closes-append (cmd_log k ∷ cs) ds = closes-append cs ds
closes-append (cmd_close ∷ cs) ds = omega (arith, closes-append cs ds)

-- While the goroutine runs, it has met no `cmd_close`; at its end, the first one was its last.
record Met (d : Dedup) (taken : List Cmd) : Type 0 where
  pub while_open : d.done ≡ false → closes taken ≡ 0
  pub at_end :
      d.done ≡ true
      → (before : List Cmd) × (taken ≡ before ++ cmd_close ∷ [])
        × (closes before ≡ 0)
        × (d.last_msgs ≡ [])

record Holds (d : Dedup) (cmds : List Cmd) : Type 0 where
  pub taken : List Cmd
  pub in_order : cmds ≡ taken ++ d.cmds
  pub account : (m : Msg) → known m d ≡ logged m taken
  pub met : Met d taken

-- A command at the head of the queue.
on_cmd-Holds :
    (d e : Dedup) (now : ℕ) (cmd : Cmd) (rest taken cmds : List Cmd)
    → cmds ≡ taken ++ cmd ∷ rest
    → ((m : Msg) → known m d ≡ logged m taken)
    → closes taken ≡ 0
    → d.done ≡ false
    → on_cmd d now (cmd ∷ rest) ≡ accepted e
    → Holds e cmds
unfolding on_cmd force_flush
on_cmd-Holds d e now (cmd_log msg) rest taken cmds s a c running h =
    let b : Dedup = record d { cmds = rest } in
    let (same_done, same_cmds) = log-keeps b now msg in
    let e' : log b now msg ≡ e = cc in
    subst (λ z. Holds z cmds) e'
      (record {
        taken = taken ++ cmd_log msg ∷ [];
        in_order =
            s
            ∙ sym (append_assoc taken (cmd_log msg ∷ []) rest)
            ∙ ap (◌++◌ (taken ++ cmd_log msg ∷ [])) (sym same_cmds);
        account = λ m.
            omega (arith, log-known b now m msg, a m, logged-append m taken (cmd_log msg ∷ []));
        met = record {
          while_open = λ o. omega (arith, c, closes-append taken (cmd_log msg ∷ []));
          at_end = λ o. absurd (cc (o, same_done, running));
        };
      })
on_cmd-Holds d e now cmd_close rest taken cmds s a c running h =
    let b : Dedup = record d { cmds = rest } in
    let e' : record (force_flush b) { done = true } ≡ e = cc in
    subst (λ z. Holds z cmds) e'
      (record {
        taken = taken ++ cmd_close ∷ [];
        in_order = s ∙ sym (append_assoc taken (cmd_close ∷ []) rest);
        account =
            λ m. omega (arith, force_flush-known b m, a m, logged-append m taken (cmd_close ∷ []));
        met = record { while_open = λ o. absurd (cc o); at_end = λ o. (taken, refl, c, refl) };
      })

while_running :
    (b : Bool) (o : Outcome Dedup) (e : Dedup)
    → (if b then blocked else o) ≡ accepted e
    → (b ≡ false) × (o ≡ accepted e)
while_running true o e h = cc
while_running false o e h = (refl, h)

cmd_arrives-Holds :
    (d e : Dedup) (now : ℕ) (cmds waiting : List Cmd)
    → d.cmds ≡ waiting
    → Holds d cmds
    → d.done ≡ false
    → on_cmd d now waiting ≡ accepted e
    → Holds e cmds
unfolding on_cmd
cmd_arrives-Holds d e now cmds [] w i running h = cc
cmd_arrives-Holds d e now cmds (cmd ∷ rest) w i running h =
    on_cmd-Holds d e now cmd rest i.taken cmds (i.in_order ∙ ap (◌++◌ i.taken) w) i.account
      (i.met.while_open running) running h

serve-Holds :
    (d e : Dedup) (cmds : List Cmd) (ev : Event)
    → Holds d cmds
    → serve d ev ≡ accepted e
    → Holds e cmds
unfolding serve maybe_flush
serve-Holds d e cmds (cmd_arrives now) i h =
    let (running, h') = while_running d.done _ e h in
    cmd_arrives-Holds d e now cmds d.cmds refl i running h'
serve-Holds d e cmds (ticks now) i h =
    let (running, h') = while_running d.done _ e h in
    let e' : maybe_flush d now ≡ e = cc in
    subst (λ z. Holds z cmds) e'
      (record {
        taken = i.taken;
        in_order = i.in_order;
        account = λ m. maybe_flush-known d now m ∙ i.account m;
        met = record { while_open = i.met.while_open; at_end = λ o. absurd (cc (o, running)) };
      })

send-queued :
    (d e : Dedup) (cmd : Cmd)
    → length d.cmds < d.queue
    → send d cmd ≡ accepted e
    → e ≡ record d { cmds = d.cmds ++ cmd ∷ [] }
unfolding send
send-queued d e cmd room h = ground arith

send-Holds :
    (d e : Dedup) (cmds : List Cmd) (cmd : Cmd)
    → Holds d cmds
    → length d.cmds < d.queue
    → send d cmd ≡ accepted e
    → Holds e (cmds ++ cmd ∷ [])
send-Holds d e cmds cmd i room h =
    subst (λ z. Holds z (cmds ++ cmd ∷ [])) (sym (send-queued d e cmd room h))
      (record {
        taken = i.taken;
        in_order = ap (λ xs. xs ++ cmd ∷ []) i.in_order ∙ append_assoc i.taken d.cmds (cmd ∷ []);
        account = i.account;
        met = record { while_open = i.met.while_open; at_end = i.met.at_end };
      })

Runs-Holds :
    (queue window : ℕ) {cmds : List Cmd} {d : Dedup}
    → Runs (new_dedup queue window) cmds d
    → Holds d cmds
unfolding new_dedup
Runs-Holds queue window start = record {
  taken = [];
  in_order = refl;
  account = λ m. refl;
  met = record { while_open = λ o. refl; at_end = λ o. absurd (cc o) };
}
Runs-Holds queue window (sends {e} {f} {cmds} cmd runs room h) =
    send-Holds e f cmds cmd (Runs-Holds queue window runs) room h
Runs-Holds queue window (hands_over {e} {f} {cmds} now cmd runs running empty h) =
    let i = Runs-Holds queue window runs in
    let all : cmds ≡ i.taken = i.in_order ∙ ap (◌++◌ i.taken) empty ∙ append-nil i.taken in
    on_cmd-Holds e f now cmd [] i.taken (cmds ++ cmd ∷ []) (ap (λ xs. xs ++ cmd ∷ []) all) i.account
      (i.met.while_open running) running h
Runs-Holds queue window (round {e} {f} {cmds} ev runs h) =
    serve-Holds e f cmds ev (Runs-Holds queue window runs) h

-- In every interleaving, the commands that the goroutine took are a first part of those that were
-- handed over, and of each message, the prints and the pending count together stand for exactly the
-- times it was taken.
pub messages_accounted :
    (queue window : ℕ) {cmds : List Cmd} {d : Dedup}
    → Runs (new_dedup queue window) cmds d
    → (taken : List Cmd) × (cmds ≡ taken ++ d.cmds)
      × ((m : Msg) → shown m d.printed + pending m d.last_msgs ≡ logged m taken)
messages_accounted queue window runs =
    let i = Runs-Holds queue window runs in (i.taken, i.in_order, i.account)

-- When the goroutine has ended, the prints stand for exactly the messages that were handed over
-- before the first `cmd_close`; those behind it are still in the queue.
pub close_prints_all :
    (queue window : ℕ) {cmds : List Cmd} {d : Dedup}
    → Runs (new_dedup queue window) cmds d
    → d.done ≡ true
    → (before : List Cmd) × (cmds ≡ before ++ cmd_close ∷ d.cmds)
      × (closes before ≡ 0)
      × ((m : Msg) → shown m d.printed ≡ logged m before)
close_prints_all queue window {cmds} {d} runs ended =
    let i = Runs-Holds queue window runs in
    let (before, t, c, empty) = i.met.at_end ended in
    (
      before,
      i.in_order ∙ ap (λ xs. xs ++ d.cmds) t ∙ append_assoc before (cmd_close ∷ []) d.cmds,
      c,
      λ m. omega (
        arith,
        i.account m,
        ap (pending m) empty,
        ap (logged m) t,
        logged-append m before (cmd_close ∷ []),
      ),
    )
