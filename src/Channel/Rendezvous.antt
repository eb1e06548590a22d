-- ===== src/Channel/Rendezvous.antt =====
-- include/co_context/co/channel.hpp, `channel<T, 0>`: one receiver at a time, which holds
-- `m_acquire_mtx`, and one sender at a time, which holds `m_release_mtx`. `m_match_mtx` is the fair
-- lock of `Mutex`: a queue whose first owns it. What is done while the lock is held is one step.
-- `drop` is `acquire` without the value.
pub mod Shapes
pub mod Delivery
mod Tests
use co_context.Prelude.{List, [], ◌∷◌, ◌++◌, Bool, true, false, ◌≡◌, Option, none, some}

pub data Actor : Type 0 where
  receiver : Actor
  sender : Actor

-- Where the receiver stands, and the sender with its item.
pub data Receiver : Type 0 where
  r_idle : Receiver
  r_enters : Receiver  -- in `m_match_mtx.lock()`
  r_waits : Receiver  -- in `m_match_cv.wait`
  r_woken : Receiver  -- notified, and to own the lock again

pub data Sender (T : Type 0) : Type 0 where
  s_idle : Sender T
  s_enters : (item : T) → Sender T
  s_waits : (item : T) → Sender T
  s_woken : (item : T) → Sender T
  s_notifies : Sender T  -- before `m_match_cv.notify_one()`

-- `m_receiver` is not null if `has_receiver`, and points to `item`. `sent` and `received` are the
-- items so far, in order.
pub record ZeroChannel (T : Type 0) : Type 0 where
  pub queue : List Actor
  pub receiver_pc : Receiver
  pub sender_pc : Sender T
  pub has_receiver : Bool
  pub has_sender : Bool
  pub item : Option T
  pub sent : List T
  pub received : List T

-- `m_match_cv.notify_one()` of the receiver, which wakes a sender that waits.
abbrev pub notified : {T : Type 0} → Sender T → Sender T
notified (s_waits x) = s_woken x
notified s = s

abbrev pub joins : {T : Type 0} → Sender T → List Actor
joins (s_waits x) = sender ∷ []
joins s = []

module _ {T : Type 0} where
  -- The receiver owns the lock, and `q` stands behind it: `acquire` from `m_receiver = &item` to the
  -- wait, and from the wait on.
  abbrev pub receiver_runs :
      (q : List Actor) → Receiver → (has_sender : Bool) → Option T → ZeroChannel T → ZeroChannel T
  receiver_runs q r_enters false i c = record c {
    queue = q;
    receiver_pc = r_waits;
    has_receiver = true;
    item = none;
  }
  receiver_runs q r_enters true i c = record c {
    queue = q ++ joins c.sender_pc;
    receiver_pc = r_waits;
    sender_pc = notified c.sender_pc;
    has_receiver = true;
    item = none;
  }
  receiver_runs q r_woken has_sender none c = record c { queue = q; receiver_pc = r_waits }
  receiver_runs q r_woken has_sender (some x) c = record c {
    queue = q;
    receiver_pc = r_idle;
    has_sender = false;
    item = none;
    received = c.received ++ x ∷ [];
  }
  receiver_runs q r_idle has_sender i c = c
  receiver_runs q r_waits has_sender i c = c

  abbrev pub emplace : (q : List Actor) → T → ZeroChannel T → ZeroChannel T
  emplace q x c = record c {
    queue = q;
    sender_pc = s_notifies;
    has_receiver = false;
    item = some x;
    sent = c.sent ++ x ∷ [];
  }

  -- The sender owns the lock: `release` from the test of `m_receiver` to the unlock.
  abbrev pub sender_runs :
      (q : List Actor) → Sender T → (has_receiver : Bool) → ZeroChannel T → ZeroChannel T
  sender_runs q (s_enters x) true c = emplace q x c
  sender_runs q (s_enters x) false c = record c {
    queue = q;
    sender_pc = s_waits x;
    has_sender = true;
  }
  sender_runs q (s_woken x) true c = emplace q x c
  sender_runs q (s_woken x) false c = record c { queue = q; sender_pc = s_waits x }
  sender_runs q s_idle has_receiver c = c
  sender_runs q (s_waits x) has_receiver c = c
  sender_runs q s_notifies has_receiver c = c

  -- `m_match_cv.notify_one()` of the sender.
  abbrev pub sender_notifies : Sender T → Receiver → ZeroChannel T → ZeroChannel T
  sender_notifies s_notifies r_waits c = record c {
    queue = c.queue ++ receiver ∷ [];
    receiver_pc = r_woken;
    sender_pc = s_idle;
  }
  sender_notifies s_notifies r_idle c = record c { sender_pc = s_idle }
  sender_notifies s_notifies r_enters c = record c { sender_pc = s_idle }
  sender_notifies s_notifies r_woken c = record c { sender_pc = s_idle }
  sender_notifies s_idle r c = c
  sender_notifies (s_enters x) r c = c
  sender_notifies (s_waits x) r c = c
  sender_notifies (s_woken x) r c = c

  abbrev pub owner_runs : List Actor → ZeroChannel T → ZeroChannel T
  owner_runs [] c = c
  owner_runs (receiver ∷ q) c = receiver_runs q c.receiver_pc c.has_sender c.item c
  owner_runs (sender ∷ q) c = sender_runs q c.sender_pc c.has_receiver c

  abbrev pub receiver_comes : Receiver → ZeroChannel T → ZeroChannel T
  receiver_comes r_idle c = record c { queue = c.queue ++ receiver ∷ []; receiver_pc = r_enters }
  receiver_comes r_enters c = c
  receiver_comes r_waits c = c
  receiver_comes r_woken c = c

  abbrev pub sender_comes : T → Sender T → ZeroChannel T → ZeroChannel T
  sender_comes x s_idle c = record c { queue = c.queue ++ sender ∷ []; sender_pc = s_enters x }
  sender_comes x (s_enters y) c = c
  sender_comes x (s_waits y) c = c
  sender_comes x (s_woken y) c = c
  sender_comes x s_notifies c = c

-- What may happen: a receiver or a sender comes when there is none, the owner of the lock runs, or
-- the sender notifies. An event that cannot happen changes nothing.
pub data Event (T : Type 0) : Type 0 where
  acquire_called : Event T
  release_called : T → Event T
  owner : Event T
  notify : Event T

unfoldable pub step : {T : Type 0} → Event T → ZeroChannel T → ZeroChannel T
step acquire_called c = receiver_comes c.receiver_pc c
step (release_called x) c = sender_comes x c.sender_pc c
step owner c = owner_runs c.queue c
step notify c = sender_notifies c.sender_pc c.receiver_pc c

unfoldable pub run : {T : Type 0} → List (Event T) → ZeroChannel T → ZeroChannel T
unfolding step
run [] c = c
run (e ∷ es) c = run es (step e c)

abbrev pub new_zero_channel : {T : Type 0} → ZeroChannel T
new_zero_channel = record {
  queue = [];
  receiver_pc = r_idle;
  sender_pc = s_idle;
  has_receiver = false;
  has_sender = false;
  item = none;
  sent = [];
  received = [];
}
