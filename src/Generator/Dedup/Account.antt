-- ===== src/Generator/Dedup/Account.antt =====
-- Every message that the logger took is printed or counted, exactly once.
use cdnnow_test_golang.Shared.{
  ℕ, ◌+◌, ◌≡◌, refl, ap₂, true, Bool-cases, inl, inr, Option-cases, some, List, [], ◌∷◌, ◌++◌, ◌==◌,
  ==_iff, if◌then◌else◌, arith,
}
use cdnnow_test_golang.Generator.Dedup.{
  Msg, same_msg, MsgMeta, Cmd, cmd_log, cmd_close, Printed, once, more, Entries, Dedup, bump,
  remember, log, print_more, flush_entries, force_flush, sweep_entry, sweep, maybe_flush,
}

same_msg-eq : (a b : Msg) → same_msg a b ≡ true → a ≡ b
same_msg-eq [] [] h = refl
same_msg-eq [] (y ∷ ys) h = cc
same_msg-eq (x ∷ xs) [] h = cc
same_msg-eq (x ∷ xs) (y ∷ ys) h = elim (Bool-cases (x == y)) [
  | inl b ↦ elim (Bool-cases (same_msg xs ys)) [
    | inl c ↦ ap₂ ◌∷◌ ((==_iff x y).0 b) (same_msg-eq xs ys c)
    | inr c ↦ absurd (ground arith)
  ]
  | inr b ↦ absurd (ground arith)
]

-- 1 for the message itself.
abbrev pub hit : Msg → Msg → ℕ
hit m k = if same_msg m k then 1 else 0

-- How often a message was handed over by some commands.
abbrev pub logged : Msg → List Cmd → ℕ
logged m [] = 0
logged m (cmd_log k ∷ cmds) = hit m k + logged m cmds
logged m (cmd_close ∷ cmds) = logged m cmds

-- How many messages some prints stand for.
abbrev pub shown : Msg → List Printed → ℕ
shown m [] = 0
shown m (once k ∷ ps) = hit m k + shown m ps
shown m (more k n ∷ ps) = (if same_msg m k then n else 0) + shown m ps

-- How many are suppressed and not printed.
abbrev pub pending : Msg → Entries → ℕ
pending m [] = 0
pending m ((k, e) ∷ es) = (if same_msg m k then e.suppressed else 0) + pending m es

shown-append : (m : Msg) (ps qs : List Printed) → shown m (ps ++ qs) ≡ shown m ps + shown m qs
shown-append m [] qs = omega arith
shown-append m (once k ∷ ps) qs = omega (arith, shown-append m ps qs)
shown-append m (more k n ∷ ps) qs = omega (arith, shown-append m ps qs)

pending-append : (m : Msg) (es fs : Entries) → pending m (es ++ fs) ≡ pending m es + pending m fs
pending-append m [] fs = omega arith
pending-append m ((k, e) ∷ es) fs = omega (arith, pending-append m es fs)

pub logged-append : (m : Msg) (cs ds : List Cmd) → logged m (cs ++ ds) ≡ logged m cs + logged m ds
logged-append m [] ds = omega arith
logged-append m (cmd_log k ∷ cs) ds = omega (arith, logged-append m cs ds)
logged-append m (cmd_close ∷ cs) ds = logged-append m cs ds

pending-bump :
    (m msg : Msg) (es fs : Entries)
    → bump es msg ≡ some fs
    → pending m fs ≡ pending m es + hit m msg
unfolding bump
pending-bump m msg [] fs h = cc
pending-bump m msg ((k, e) ∷ es) fs h = elim (Bool-cases (same_msg msg k)) [
  | inl b ↦
      let eq = same_msg-eq msg k b in
      let fs' : (k, record e { suppressed = e.suppressed + 1 }) ∷ es ≡ fs = ground arith in
      rw (← fs', eq) (ground arith)
  | inr b ↦ elim (Option-cases (bump es msg)) [
    | inl n ↦ absurd (ground arith)
    | inr (rest, r) ↦
        let fs' : ◌≡◌ {A = Entries} ((k, e) ∷ rest) fs = ground arith in
        rw (← fs') (omega (arith, pending-bump m msg es rest r))
  ]
]

shown-flush : (m : Msg) (es : Entries) → shown m (flush_entries es) ≡ pending m es
unfolding flush_entries print_more
shown-flush m [] = refl
shown-flush m ((k, e) ∷ es) =
    ground (arith, shown-append m (print_more k e) (flush_entries es), shown-flush m es)

sweep-entry :
    (window now : ℕ) (m k : Msg) (e : MsgMeta)
    → pending m (sweep_entry window now k e).0 + shown m (sweep_entry window now k e).1
      ≡ (if same_msg m k then e.suppressed else 0)
unfolding sweep_entry
sweep-entry window now m k e = ground arith

pending-sweep :
    (window now : ℕ) (m : Msg) (es : Entries)
    → pending m (sweep window now es).0 + shown m (sweep window now es).1 ≡ pending m es
unfolding sweep
pending-sweep window now m [] = refl
pending-sweep window now m ((k, e) ∷ es) = omega (
  arith,
  sweep-entry window now m k e,
  pending-sweep window now m es,
  pending-append m (sweep_entry window now k e).0 (sweep window now es).0,
  shown-append m (sweep_entry window now k e).1 (sweep window now es).1,
)

-- What is printed or waits to be, of one message.
abbrev pub known : Msg → Dedup → ℕ
known m d = shown m d.printed + pending m d.last_msgs

pub log-known :
    (d : Dedup) (now : ℕ) (m msg : Msg) → known m (log d now msg) ≡ known m d + hit m msg
unfolding log remember
log-known d now m msg = elim (Option-cases (bump d.last_msgs msg)) [
  | inl n ↦ rw (n, log) (ground (arith, shown-append m d.printed (once msg ∷ [])))
  | inr (es, e) ↦ rw (e, log) (omega (arith, pending-bump m msg d.last_msgs es e))
]

pub log-keeps :
    (d : Dedup) (now : ℕ) (msg : Msg)
    → ((log d now msg).done ≡ d.done) × ((log d now msg).cmds ≡ d.cmds)
unfolding log remember
log-keeps d now msg = elim (Option-cases (bump d.last_msgs msg)) [
  | inl n ↦ rw (n, log) (refl, refl)
  | inr (es, e) ↦ rw (e, log) (refl, refl)
]

pub force_flush-known : (d : Dedup) (m : Msg) → known m (force_flush d) ≡ known m d
unfolding force_flush
force_flush-known d m =
    omega (arith, shown-append m d.printed (flush_entries d.last_msgs), shown-flush m d.last_msgs)

pub maybe_flush-known : (d : Dedup) (now : ℕ) (m : Msg) → known m (maybe_flush d now) ≡ known m d
unfolding maybe_flush
maybe_flush-known d now m = omega (
  arith,
  shown-append m d.printed (sweep d.window now d.last_msgs).1,
  pending-sweep d.window now m d.last_msgs,
)
