-- ===== src/Passing/Descriptor.antt =====
-- The error that the child met, as my_open gives it back.
use unix_network_programming.Base.{
  ℕ, ◌*◌, ◌/◌, ◌%◌, ◌<◌, ◌≡◌, refl, ap, ◌∙◌, true, false, some, List, ◌==◌, arith,
}
use unix_network_programming.Base.Int.{pos}
use unix_network_programming.Inetd.Child.{Table, close, open_at}
use unix_network_programming.Passing.{
  errno, System, error_code, openfile, Calls, refused, wait_status, on_status, my_open,
}

module _ {F : Type 0} (k : System F) where
  -- The parent's descriptors while the child runs.
  abbrev pub with_pipe : Calls k → (near far : ℕ) → Table F → Table F
  with_pipe c near far t = open_at c.far far (open_at c.near near t)

  on_status_refused :
      (near code : ℕ) (t : Table F) (s : k.State)
      → 0 < code
      → code < 256
      → on_status k near (code % 256 * 256) t s ≡ refused (some code) (close near t) s
  on_status_refused near code t s h h' =
      let low : (code % 256 * 256 % 256 == 0) ≡ true = ground arith in
      let high : (code % 256 * 256 / 256 % 256 == 0) ≡ false = ground arith in
      let same : code % 256 * 256 / 256 % 256 ≡ code = omega arith in
      rw (low, high) (ap (λ z. refused (some z) (close near t) s) same)

  run_errno :
      (c : Calls k) (filename : List ℕ) (mode near far pid e : ℕ) (t : Table F) (s : k.State)
      → k.open_file filename mode (close near (with_pipe c near far t)) ≡ errno e
      → c.s_pipe ≡ some (near, far)
      → c.fork ≡ pos pid
      → c.execs ≡ true
      → c.signal ≡ 0
      → my_open k c filename mode t s
        ≡ on_status k near (wait_status k 0 (error_code k e)) (close far (with_pipe c near far t)) s
  unfolding my_open openfile
  run_errno c filename mode near far pid e t s o ep ef ee es = rw (ep, ef, ee, es, o) refl

  -- Where the child runs and open() fails in it with an errno from 1 to 255, my_open returns -1 with
  -- that errno, the way it goes through the exit status, and leaves no descriptor of the pipe open.
  pub my_open-errno :
      (c : Calls k) (filename : List ℕ) (mode near far pid e : ℕ) (t : Table F) (s : k.State)
      → 0 < e
      → e < 256
      → k.open_file filename mode (close near (with_pipe c near far t)) ≡ errno e
      → c.s_pipe ≡ some (near, far)
      → c.fork ≡ pos pid
      → c.execs ≡ true
      → c.signal ≡ 0
      → my_open k c filename mode t s
        ≡ refused (some e) (close near (close far (with_pipe c near far t))) s
  my_open-errno c filename mode near far pid e t s h h' o ep ef ee es =
      run_errno c filename mode near far pid e t s o ep ef ee es
      ∙ rw (let l : error_code k e ≡ e = ground arith in l)
          (on_status_refused near e (close far (with_pipe c near far t)) s h h')
