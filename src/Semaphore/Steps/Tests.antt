-- ===== src/Semaphore/Steps/Tests.antt =====
-- One permit and two coroutines: the first gets through, the second waits until a release wakes it.
use co_context.Prelude.{none, some, []}
use co_context.Prelude.Names.{update}
use co_context.Awaiters.{Links, set_next}
use co_context.Semaphore.{taken}
use co_context.Semaphore.Steps.{
  suspended, registering, trying, linked, goes_on, System, added, start,
}

abbrev links : Links
links p = 0

abbrev s1 : System
s1 = record (start 1 links) {
  sem = taken (start 1 links).sem;
  pc = update (start 1 links).pc 8 goes_on;
  acquired = 1;
  passed = 1;
}

abbrev s2 : System
s2 = record s1 { sem = taken s1.sem; pc = update s1.pc 16 registering; acquired = 2 }

abbrev s3 : System
s3 = record s2 { pc = update s2.pc 16 (trying 0) }

abbrev s4 : System
s4 = record s3 {
  sem = record s3.sem { next = set_next s3.sem.next 16 0 };
  pc = update s3.pc 16 (linked 0);
}

abbrev s5 : System
s5 = record s4 { sem = record s4.sem { awaiting = 16 }; pc = update s4.pc 16 suspended }

abbrev s6 : System
s6 = record (added s5 1) { pending = []; notifying = some 1 }

abbrev s7 : System
s7 = record s6 {
  sem = record s6.sem { awaiting = 0; next = set_next s6.sem.next 16 0; to_resume = 0 };
  pc = update s6.pc 16 goes_on;
  notifying = none;
  passed = 2;
}
