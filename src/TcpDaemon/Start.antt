-- ===== src/TcpDaemon/Start.antt =====
-- The descriptors and the settings with which tcp_daemon.c waits for its first client.
use unix_network_programming.Base.{
  ℕ, zero, suc, ◌≤◌, ◌<◌, ◌≡◌, ◌⊎◌, refl, Bool, true, none, some, ◌==◌, ◌||◌, arith, Bool-cases,
  inl, inr,
}
use unix_network_programming.Base.Int.{ℤ, pos, negsuc}
use unix_network_programming.Inetd.Child.{Table, lowest_free, open_at}
use unix_network_programming.Inetd.Descriptors.{all_closed}
use unix_network_programming.Inetd.Daemon.{Process}
use unix_network_programming.TcpDaemon.{
  File, log_file, listener, Calls, listening, on_log, detach, out, daemon_start, give_up_tty,
}

-- The log on 0 and 1, the listening socket on 2, and no other.
abbrev pub at_loop : Table File
at_loop zero = some log_file
at_loop (suc zero) = some log_file
at_loop (suc (suc zero)) = some listener
at_loop (suc (suc (suc n))) = none

abbrev pub AtLoop : Table File → Type 0
AtLoop t = (n : ℕ) → t n ≡ at_loop n

pub lowest_free-none :
    {F : Type 0} (n fd : ℕ) (t : Table F) → t fd ≡ none → lowest_free (suc n) fd t ≡ fd
lowest_free-none n fd t e = rw (lowest_free, e)

pub lowest_free-some :
    {F : Type 0} (n fd : ℕ) (file : F) (t : Table F)
    → t fd ≡ some file
    → lowest_free (suc n) fd t ≡ lowest_free n (suc fd) t
lowest_free-some n fd file t e = rw (lowest_free, e)

-- What the function has set when it waits for clients.
abbrev pub Settled : Bool → Process File → Process File → Type 0
Settled ig p q =
    AtLoop q.files × (q.at_root ≡ true) × (q.umask ≡ some 0) × (q.sigchld ≡ (ig || p.sigchld))

abbrev Opens : Calls → Type 0
Opens c =
    ((l : ℕ) × (c.log ≡ pos l)) × ((s : ℕ) × (c.socket ≡ pos s)) × ((a : ℕ) × (c.listen ≡ pos a))

-- The three descriptors, as open(), dup() and socket() give them in turn.
on_log-AtLoop :
    (c : Calls) (nofile l : ℕ) (p : Process File)
    → 2 < nofile
    → Opens c
    → ((n : ℕ) → p.files n ≡ none)
    → (t : Table File) × (on_log c nofile (pos l) p ≡ listening 2 (record p { files = t }))
      × AtLoop t
on_log-AtLoop c zero l p h o gone = absurd (omega arith)
on_log-AtLoop c (suc zero) l p h o gone = absurd (omega arith)
on_log-AtLoop c (suc (suc zero)) l p h o gone = absurd (omega arith)
on_log-AtLoop c (suc (suc (suc n))) l p h (log, (s, es), (a, ea)) gone =
    let t0 : Table File = open_at log_file 0 p.files in
    let t1 : Table File = open_at log_file 1 t0 in
    let f0 : lowest_free (suc (suc (suc n))) 0 p.files ≡ 0 =
      lowest_free-none (suc (suc n)) 0 p.files (gone 0) in
    let f1 : lowest_free (suc (suc (suc n))) 0 t0 ≡ 1 = lowest_free-none (suc n) 1 t0 (gone 1) in
    let f2 : lowest_free (suc (suc (suc n))) 0 t1 ≡ 2 = lowest_free-none n 2 t1 (gone 2) in
    (open_at listener 2 t1, rw (f0, f1, es, f2, ea), all)
  where
    all : AtLoop (open_at listener 2 (open_at log_file 1 (open_at log_file 0 p.files)))
    all zero = refl
    all (suc zero) = refl
    all (suc (suc zero)) = refl
    all (suc (suc (suc n))) = let g = gone (suc (suc (suc n))) in ground arith

out-Settled :
    (c : Calls) (nofile : ℕ) (ig : Bool) (p : Process File)
    → 2 < nofile
    → Opens c
    → ((n : ℕ) → nofile ≤ n → p.files n ≡ none)
    → (q : Process File) × (out c nofile ig p ≡ listening 2 q) × Settled ig p q
out-Settled c nofile ig p h ((l, el), o, o') top =
    let settled = detach nofile ig p in
    let s = on_log-AtLoop c nofile l settled h ((l, el), o, o') (all_closed nofile p.files top) in
    (record settled { files = s.0 }, rw (el) s.1, (s.2, refl, refl, ground arith))

-- With no descriptor open from NOFILE on, a log that opens, and a socket that is made and listened
-- on, daemon_start in a process that init started, or in a forked child that gets its group, comes
-- to its loop with exactly three descriptors, the log on 0 and 1 and the listening socket on 2, at
-- the root directory, with the mask 0, and with the SIGCHLD handler set if it was asked for.
tcp_daemon_start-AtLoop :
    (c : Calls) (nofile : ℕ) (ig : Bool) (p : Process File) (l s a : ℕ)
    → 2 < nofile
    → c.log ≡ pos l
    → c.socket ≡ pos s
    → c.listen ≡ pos a
    → ((n : ℕ) → nofile ≤ n → p.files n ≡ none)
    → (c.getppid ≡ 1) ⊎ ((c.fork ≡ pos 0) × (c.setpgid ≡ pos 0))
    → (q : Process File) × (daemon_start c nofile ig p ≡ listening 2 q) × Settled ig p q
unfolding daemon_start
tcp_daemon_start-AtLoop c nofile ig p l s a h el es ea top (inl i) =
    rw (i) (out-Settled c nofile ig p h ((l, el), (s, es), (a, ea)) top)
tcp_daemon_start-AtLoop c nofile ig p l s a h el es ea top (inr (f, g)) =
    elim (Bool-cases (c.getppid == 1)) [
      | inl i ↦ rw (i) (out-Settled c nofile ig p h ((l, el), (s, es), (a, ea)) top)
      | inr i ↦ rw (i, f, g) (tty c.tty)
    ]
  where
    grouped : Process File
    grouped = record p { ignores_tty = true; own_group = true }

    tty :
        (x : ℤ)
        → (q : Process File) × (out c nofile ig (give_up_tty x grouped) ≡ listening 2 q)
          × Settled ig p q
    tty (pos k) =
        out-Settled c nofile ig (record grouped { no_tty = true }) h ((l, el), (s, es), (a, ea)) top
    tty (negsuc k) = out-Settled c nofile ig grouped h ((l, el), (s, es), (a, ea)) top
