-- ===== src/Generator/Dedup.antt =====
-- `Dedup` of internal/generator/loggers/dedup.go: a logger that prints a message once in a window,
-- and then how often it was suppressed.
-- A message is its bytes. The map is an association list, and a loop over it runs in the order of the
-- list; Go's order is any. What the goroutine has printed is a list, oldest first. Times are
-- nanoseconds, and the window is at least four of them, which the ticker needs.
pub mod Account
pub mod Close
mod Tests
use cdnnow_test_golang.Shared.{
  ℕ, zero, suc, ◌+◌, ◌<◌, ◌≡◌, Bool, true, false, not, ◌&&◌, Option, none, some, List, [], ◌∷◌,
  ◌++◌, length, ltb, ◌==◌, if◌then◌else◌,
}
use cdnnow_test_golang.Calculators.Server.{Outcome, accepted, blocked}

abbrev pub Msg : Type 0
Msg = List ℕ

abbrev pub same_msg : Msg → Msg → Bool
same_msg [] [] = true
same_msg [] (y ∷ ys) = false
same_msg (x ∷ xs) [] = false
same_msg (x ∷ xs) (y ∷ ys) = (x == y) && same_msg xs ys

-- `dedupMsgMeta`
pub record MsgMeta : Type 0 where
  pub flush_at : ℕ
  pub suppressed : ℕ

-- `dedupCmd`
pub data Cmd : Type 0 where
  cmd_log : Msg → Cmd
  cmd_close : Cmd

-- What the underlying logger prints: a message, or a message with "(+n more)".
pub data Printed : Type 0 where
  once : Msg → Printed
  more : Msg → ℕ → Printed

abbrev pub Entries : Type 0
Entries = List (Msg × MsgMeta)

pub record Dedup : Type 0 where
  pub window : ℕ
  pub last_msgs : Entries
  pub cmds : List Cmd
  pub queue : ℕ
  pub done : Bool
  pub printed : List Printed

abbrev pub default_window : ℕ
default_window = 2000000000

-- `NewDedup`
unfoldable pub new_dedup : (queue : ℕ) → (window : ℕ) → Dedup
new_dedup queue window = record {
  window = if window == 0 then default_window else window;
  last_msgs = [];
  cmds = [];
  queue = queue;
  done = false;
  printed = [];
}

-- `if meta, ok := lg.lastMsgs[msg]; ok { meta.suppressed++; lg.lastMsgs[msg] = meta }`
unfoldable pub bump : Entries → Msg → Option Entries
bump [] msg = none
bump ((k, e) ∷ es) msg =
    if same_msg msg k
    then some ((k, record e { suppressed = e.suppressed + 1 }) ∷ es)
    else (elim (bump es msg) [ none ↦ none | some rest ↦ some ((k, e) ∷ rest) ])

-- `remember`, of a message that the map does not have.
unfoldable pub remember : Dedup → ℕ → Msg → Dedup
remember d at_time msg = record d {
  last_msgs = (msg, record { flush_at = at_time + d.window; suppressed = 0 }) ∷ d.last_msgs;
}

unfoldable pub log : Dedup → ℕ → Msg → Dedup
unfolding remember
log d now msg = elim (bump d.last_msgs msg) [
  | some entries ↦ record d { last_msgs = entries }
  | none ↦ remember (record d { printed = d.printed ++ once msg ∷ [] }) now msg
]

-- `if meta.suppressed > 0 { lg.printMore(msg, meta.suppressed) }`
unfoldable pub print_more : Msg → MsgMeta → List Printed
print_more msg e = if ltb 0 e.suppressed then more msg e.suppressed ∷ [] else []

-- The loop of `forceFlush`, which deletes every entry.
unfoldable pub flush_entries : Entries → List Printed
unfolding print_more
flush_entries [] = []
flush_entries ((k, e) ∷ es) = print_more k e ++ flush_entries es

unfoldable pub force_flush : Dedup → Dedup
unfolding flush_entries
force_flush d = record d { last_msgs = []; printed = d.printed ++ flush_entries d.last_msgs }

-- One round of the loop of `maybeFlush`: what stays of an entry, and what is printed.
unfoldable pub sweep_entry : (window : ℕ) → (now : ℕ) → Msg → MsgMeta → Entries × List Printed
sweep_entry window now k e =
    if ltb now e.flush_at
    then ((k, e) ∷ [], [])
    else (if ltb 0 e.suppressed
        then (
          (k, record { flush_at = now + window; suppressed = 0 }) ∷ [],
          more k e.suppressed ∷ [],
        )
        else ([], []))

unfoldable pub sweep : (window : ℕ) → (now : ℕ) → Entries → Entries × List Printed
unfolding sweep_entry
sweep window now [] = ([], [])
sweep window now ((k, e) ∷ es) =
    let (kept, out) = sweep_entry window now k e in
    let (rest, outs) = sweep window now es in (kept ++ rest, out ++ outs)

unfoldable pub maybe_flush : Dedup → ℕ → Dedup
unfolding sweep
maybe_flush d now =
    let (entries, outs) = sweep d.window now d.last_msgs in
    record d { last_msgs = entries; printed = d.printed ++ outs }

-- `send`: after the end a command may be dropped instead, which changes nothing.
unfoldable pub send : Dedup → Cmd → Outcome Dedup
send d cmd =
    if ltb (length d.cmds) d.queue
    then accepted (record d { cmds = d.cmds ++ cmd ∷ [] })
    else (if d.done then accepted d else blocked)

-- `case cmd := <-lg.cmdCh`
unfoldable pub on_cmd : Dedup → ℕ → List Cmd → Outcome Dedup
on_cmd d now [] = blocked
on_cmd d now (cmd_log msg ∷ rest) = accepted (log (record d { cmds = rest }) now msg)
on_cmd d now (cmd_close ∷ rest) =
    let e = force_flush (record d { cmds = rest }) in accepted (record e { done = true })

pub data Event : Type 0 where
  cmd_arrives ticks : (now : ℕ) → Event

-- One round of the loop in `serve`.
unfoldable pub serve : Dedup → Event → Outcome Dedup
unfolding on_cmd
serve d (cmd_arrives now) = if d.done then blocked else on_cmd d now d.cmds
serve d (ticks now) = if d.done then blocked else accepted (maybe_flush d now)

-- Any interleaving of callers and goroutine, with the commands that were handed over. An unbuffered
-- queue never has room: a command is handed over to the waiting goroutine.
pub data Runs (d : Dedup) : List Cmd → Dedup → Type 0 where
  start : Runs d [] d
  sends :
      {e f : Dedup} {cmds : List Cmd} (cmd : Cmd)
      → Runs d cmds e
      → length e.cmds < e.queue
      → send e cmd ≡ accepted f
      → Runs d (cmds ++ cmd ∷ []) f
  hands_over :
      {e f : Dedup} {cmds : List Cmd} (now : ℕ) (cmd : Cmd)
      → Runs d cmds e
      → e.done ≡ false
      → e.cmds ≡ []
      → on_cmd e now (cmd ∷ []) ≡ accepted f
      → Runs d (cmds ++ cmd ∷ []) f
  round :
      {e f : Dedup} {cmds : List Cmd} (ev : Event)
      → Runs d cmds e
      → serve e ev ≡ accepted f
      → Runs d cmds f
