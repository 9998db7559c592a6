-- ===== src/Pmm/Calls.antt =====
-- Any sequence of calls of kernel/pmm.c.
use ali_os.Base.{ℕ, List, [], ◌∷◌}
use ali_os.Pmm.{Pmm, pmm_alloc, pmm_free, pmm_addref}
use ali_os.Pmm.Alloc.{IsValid, pmm_alloc-IsValid, pmm_free-IsValid, pmm_addref-IsValid}

pub data Call : Type 0 where
  alloc : Call
  free : (addr : ℕ) → Call
  addref : (addr : ℕ) → Call

unfoldable pub call : Call → Pmm → Pmm
call Call.alloc s = (pmm_alloc s).1
call (Call.free addr) s = pmm_free addr s
call (Call.addref addr) s = pmm_addref addr s

unfoldable pub run : List Call → Pmm → Pmm
unfolding call
run [] s = s
run (c ∷ cs) s = run cs (call c s)

call-IsValid : (c : Call) (s : Pmm) → IsValid s → IsValid (call c s)
unfolding call
call-IsValid Call.alloc s v = pmm_alloc-IsValid s v
call-IsValid (Call.free addr) s v = pmm_free-IsValid addr s v
call-IsValid (Call.addref addr) s v = pmm_addref-IsValid addr s v

-- Whatever sequence of `pmm_alloc`, `pmm_free` and `pmm_addref` is called from a valid state, with
-- whatever addresses, the counter stays the number of free pages, and every reference count fits a byte.
pub run-IsValid : (cs : List Call) (s : Pmm) → IsValid s → IsValid (run cs s)
unfolding run
run-IsValid [] s v = v
run-IsValid (c ∷ cs) s v = run-IsValid cs (call c s) (call-IsValid c s v)
