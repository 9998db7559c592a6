-- ===== src/Sched/Fds.antt =====
-- `release_pipe_fds` of kernel/sched.c: it closes every pipe end that a task holds, once.
use ali_os.Base.{
  ℕ, ℤ, pos, negsuc, zero, suc, ◌+◌, ◌-◌, ◌≤◌, ◌<◌, ◌≡◌, ◌≢◌, ◌∙◌, refl, ap, ap₂, Bool, false, not,
  ◌&&◌, if◌then◌else◌, ◌==◌, arith, Bool-cases, inl, inr,
}
use ali_os.Task.{Fd, Task, fd_pipe, task_fd_max}
use ali_os.Pipe.{pipe_max}
use ali_os.Pipe.Pool.{Pool, pipe_close_read, pipe_close_write}
use ali_os.Sched.{release_fd, release_from, release_pipe_fds}

abbrev pub names : ℤ → ℕ → Bool
names (pos i) p = i == p
names (negsuc n) p = false

abbrev pub is_pipe_fd : Fd → Bool
is_pipe_fd f = f.used && (f.kind == fd_pipe)

-- The descriptor is a write end, or a read end, of pipe `p`.
abbrev pub is_write_end : ℕ → Fd → Bool
is_write_end p f = is_pipe_fd f && (f.pipe_write && names f.pipe_idx p)

abbrev pub is_read_end : ℕ → Fd → Bool
is_read_end p f = is_pipe_fd f && (not f.pipe_write && names f.pipe_idx p)

-- How many of the `left` descriptors from `i` on pass a test.
unfoldable pub count_fds : (Fd → Bool) → ℕ → ℕ → (ℕ → Fd) → ℕ
count_fds test zero i fds = 0
count_fds test (suc left) i fds = (if test (fds i) then 1 else 0) + count_fds test left (i + 1) fds

count_fds_cong :
    (test : Fd → Bool) (left i : ℕ) (fds gds : ℕ → Fd)
    → ((j : ℕ) → i ≤ j → fds j ≡ gds j)
    → count_fds test left i fds ≡ count_fds test left i gds
unfolding count_fds
count_fds_cong test zero i fds gds h = refl
count_fds_cong test (suc left) i fds gds h =
    ap₂ ◌+◌ (ap (λ (f : Fd). if test f then 1 else 0) (h i (omega arith)))
      (count_fds_cong test left (i + 1) fds gds (λ j l. h j (omega arith)))

release_fd_later :
    (i : ℕ) (fds : ℕ → Fd) (pool : Pool) (j : ℕ) → i ≢ j → (release_fd i fds pool).0 j ≡ fds j
unfolding release_fd
release_fd_later i fds pool j h = ground arith

pub record Closes (p : ℕ) (pool out : Pool) (writers readers : ℕ) : Type 0 where
  pub writers_left : (out p).nwriters ≡ (pool p).nwriters - writers
  pub readers_left : (out p).nreaders ≡ (pool p).nreaders - readers

pub close_write-Closes :
    (z : ℤ) (p : ℕ) (pool : Pool)
    → p < pipe_max
    → Closes p pool (pipe_close_write z pool) (if names z p then 1 else 0) 0
unfolding pipe_close_write
close_write-Closes (pos i) p pool h = ground arith
close_write-Closes (negsuc n) p pool h = ground arith

pub close_read-Closes :
    (z : ℤ) (p : ℕ) (pool : Pool)
    → p < pipe_max
    → Closes p pool (pipe_close_read z pool) 0 (if names z p then 1 else 0)
unfolding pipe_close_read
close_read-Closes (pos i) p pool h = ground arith
close_read-Closes (negsuc n) p pool h = ground arith

release_fd-Closes :
    (i p : ℕ) (fds : ℕ → Fd) (pool : Pool)
    → p < pipe_max
    → Closes p pool
        (release_fd i fds pool).1
        (if is_write_end p (fds i) then 1 else 0)
        (if is_read_end p (fds i) then 1 else 0)
unfolding release_fd
release_fd-Closes i p fds pool h = ground (
  arith,
  close_write-Closes (fds i).pipe_idx p pool h,
  close_read-Closes (fds i).pipe_idx p pool h,
)

-- what the loop does from descriptor `i` on
record Releases (left i : ℕ) (fds : ℕ → Fd) (pool : Pool) (out : (ℕ → Fd) × Pool) : Type 0 where
  ends :
      (p : ℕ)
      → p < pipe_max
      → Closes p pool out.1
          (count_fds (is_write_end p) left i fds)
          (count_fds (is_read_end p) left i fds)
  closed : (j : ℕ) → i ≤ j → j < i + left → is_pipe_fd (out.0 j) ≡ false
  before : (j : ℕ) → j < i → out.0 j ≡ fds j
  others : (j : ℕ) → is_pipe_fd (fds j) ≡ false → out.0 j ≡ fds j

release_fd-closed :
    (i : ℕ) (fds : ℕ → Fd) (pool : Pool) → is_pipe_fd ((release_fd i fds pool).0 i) ≡ false
unfolding release_fd
release_fd-closed i fds pool = ground arith

release_fd-others :
    (i : ℕ) (fds : ℕ → Fd) (pool : Pool) (j : ℕ)
    → is_pipe_fd (fds j) ≡ false
    → (release_fd i fds pool).0 j ≡ fds j
unfolding release_fd
release_fd-others i fds pool j h = elim (Bool-cases (i == j)) [
  | inl here ↦
      let e : i ≡ j = ground arith in
      let k : is_pipe_fd (fds i) ≡ false = ap (λ m. is_pipe_fd (fds m)) e ∙ h in rw k
  | inr there ↦ ground arith
]

release_from-Releases :
    (left i : ℕ) (fds : ℕ → Fd) (pool : Pool)
    → Releases left i fds pool (release_from left i fds pool)
unfolding release_from count_fds
release_from-Releases zero i fds pool = record {
  ends = λ p h. omega arith;
  closed = λ j a b. absurd (omega arith);
  before = λ j h. refl;
  others = λ j h. refl;
}
release_from-Releases (suc left) i fds pool =
    let out = release_fd i fds pool in
    let ih = release_from-Releases left (i + 1) out.0 out.1 in
    let same = λ (test : Fd → Bool).
      count_fds_cong test left (i + 1) out.0 fds
        (λ j l. release_fd_later i fds pool j (omega arith)) in
    record {
      ends = λ p h.
          let one = release_fd-Closes i p fds pool h in
          let more = ih.ends p h in
          record {
            writers_left =
                omega (arith, one.writers_left, more.writers_left, same (is_write_end p));
            readers_left = omega (arith, one.readers_left, more.readers_left, same (is_read_end p));
          };
      closed = λ j a b. elim (Bool-cases (i == j)) [
        | inl here ↦
            let e : i ≡ j = ground arith in
            rw (← e) (ap is_pipe_fd (ih.before i (omega arith)) ∙ release_fd-closed i fds pool)
        | inr there ↦ ih.closed j (ground arith) (omega arith)
      ];
      before = λ j h. ih.before j (omega arith) ∙ release_fd_later i fds pool j (omega arith);
      others = λ j h.
          ih.others j (ap is_pipe_fd (release_fd-others i fds pool j h) ∙ h)
          ∙ release_fd-others i fds pool j h;
    }

-- `release_pipe_fds` closes every pipe descriptor of a task and no other, and lowers the counts of
-- the ends of each pipe by exactly the number of descriptors that referred to them (a count stops
-- at 0).
pub release_pipe_fds_lem :
    (t : Task) (pool : Pool)
    → ((i : ℕ) → i < task_fd_max → is_pipe_fd ((release_pipe_fds t pool).0.fd_table i) ≡ false)
      × ((i : ℕ)
          → is_pipe_fd (t.fd_table i) ≡ false
          → (release_pipe_fds t pool).0.fd_table i ≡ t.fd_table i)
      × ((p : ℕ)
          → p < pipe_max
          → Closes p pool
              (release_pipe_fds t pool).1
              (count_fds (is_write_end p) task_fd_max 0 t.fd_table)
              (count_fds (is_read_end p) task_fd_max 0 t.fd_table))
unfolding release_pipe_fds
release_pipe_fds_lem t pool =
    let r = release_from-Releases task_fd_max 0 t.fd_table pool in
    ((λ i h. r.closed i (omega arith) (omega arith)), (λ i h. r.others i h), (λ p h. r.ends p h))
