-- ===== src/Channel/Rendezvous/Shapes.antt =====
-- The states of the channel without a buffer that occur.
use co_context.Prelude.{List, [], ◌∷◌, ◌++◌, Bool, true, false, none, some}
use co_context.Channel.Rendezvous.{
  receiver, sender, r_idle, r_enters, r_waits, r_woken, s_idle, s_enters, s_waits, s_woken,
  s_notifies, ZeroChannel, Event, acquire_called, release_called, owner, notify, step, run,
}

-- The states that occur, with the items received so far; `h` is `m_has_sender` where both occur.
pub data Shape {T : Type 0} : ZeroChannel T → Type 0 where
  alone :
      (l : List T)
      → Shape (record {
        queue = [];
        receiver_pc = r_idle;
        sender_pc = s_idle;
        has_receiver = false;
        has_sender = false;
        item = none;
        sent = l;
        received = l;
      })
  sender_enters :
      (x : T) (l : List T)
      → Shape (record {
        queue = sender ∷ [];
        receiver_pc = r_idle;
        sender_pc = s_enters x;
        has_receiver = false;
        has_sender = false;
        item = none;
        sent = l;
        received = l;
      })
  sender_waits :
      (x : T) (l : List T)
      → Shape (record {
        queue = [];
        receiver_pc = r_idle;
        sender_pc = s_waits x;
        has_receiver = false;
        has_sender = true;
        item = none;
        sent = l;
        received = l;
      })
  receiver_enters :
      (l : List T)
      → Shape (record {
        queue = receiver ∷ [];
        receiver_pc = r_enters;
        sender_pc = s_idle;
        has_receiver = false;
        has_sender = false;
        item = none;
        sent = l;
        received = l;
      })
  receiver_first :
      (x : T) (l : List T)
      → Shape (record {
        queue = receiver ∷ sender ∷ [];
        receiver_pc = r_enters;
        sender_pc = s_enters x;
        has_receiver = false;
        has_sender = false;
        item = none;
        sent = l;
        received = l;
      })
  sender_first :
      (x : T) (l : List T)
      → Shape (record {
        queue = sender ∷ receiver ∷ [];
        receiver_pc = r_enters;
        sender_pc = s_enters x;
        has_receiver = false;
        has_sender = false;
        item = none;
        sent = l;
        received = l;
      })
  receiver_meets :
      (x : T) (l : List T)
      → Shape (record {
        queue = receiver ∷ [];
        receiver_pc = r_enters;
        sender_pc = s_waits x;
        has_receiver = false;
        has_sender = true;
        item = none;
        sent = l;
        received = l;
      })
  receiver_waits :
      (l : List T)
      → Shape (record {
        queue = [];
        receiver_pc = r_waits;
        sender_pc = s_idle;
        has_receiver = true;
        has_sender = false;
        item = none;
        sent = l;
        received = l;
      })
  sender_meets :
      (x : T) (l : List T)
      → Shape (record {
        queue = sender ∷ [];
        receiver_pc = r_waits;
        sender_pc = s_enters x;
        has_receiver = true;
        has_sender = false;
        item = none;
        sent = l;
        received = l;
      })
  sender_woken :
      (x : T) (l : List T)
      → Shape (record {
        queue = sender ∷ [];
        receiver_pc = r_waits;
        sender_pc = s_woken x;
        has_receiver = true;
        has_sender = true;
        item = none;
        sent = l;
        received = l;
      })
  sender_notifies :
      (x : T) (h : Bool) (l : List T)
      → Shape (record {
        queue = [];
        receiver_pc = r_waits;
        sender_pc = s_notifies;
        has_receiver = false;
        has_sender = h;
        item = some x;
        sent = l ++ x ∷ [];
        received = l;
      })
  receiver_woken :
      (x : T) (h : Bool) (l : List T)
      → Shape (record {
        queue = receiver ∷ [];
        receiver_pc = r_woken;
        sender_pc = s_idle;
        has_receiver = false;
        has_sender = h;
        item = some x;
        sent = l ++ x ∷ [];
        received = l;
      })
  next_sender :
      (x y : T) (h : Bool) (l : List T)
      → Shape (record {
        queue = receiver ∷ sender ∷ [];
        receiver_pc = r_woken;
        sender_pc = s_enters y;
        has_receiver = false;
        has_sender = h;
        item = some x;
        sent = l ++ x ∷ [];
        received = l;
      })

owner-Shape : {T : Type 0} {c : ZeroChannel T} → Shape c → Shape (step owner c)
unfolding step
owner-Shape (alone l) = alone l
owner-Shape (sender_enters x l) = sender_waits x l
owner-Shape (sender_waits x l) = sender_waits x l
owner-Shape (receiver_enters l) = receiver_waits l
owner-Shape (receiver_first x l) = sender_meets x l
owner-Shape (sender_first x l) = receiver_meets x l
owner-Shape (receiver_meets x l) = sender_woken x l
owner-Shape (receiver_waits l) = receiver_waits l
owner-Shape (sender_meets x l) = sender_notifies x false l
owner-Shape (sender_woken x l) = sender_notifies x true l
owner-Shape (sender_notifies x h l) = sender_notifies x h l
owner-Shape (receiver_woken x h l) = alone (l ++ x ∷ [])
owner-Shape (next_sender x y h l) = sender_enters y (l ++ x ∷ [])

notify-Shape : {T : Type 0} {c : ZeroChannel T} → Shape c → Shape (step notify c)
unfolding step
notify-Shape (alone l) = alone l
notify-Shape (sender_enters x l) = sender_enters x l
notify-Shape (sender_waits x l) = sender_waits x l
notify-Shape (receiver_enters l) = receiver_enters l
notify-Shape (receiver_first x l) = receiver_first x l
notify-Shape (sender_first x l) = sender_first x l
notify-Shape (receiver_meets x l) = receiver_meets x l
notify-Shape (receiver_waits l) = receiver_waits l
notify-Shape (sender_meets x l) = sender_meets x l
notify-Shape (sender_woken x l) = sender_woken x l
notify-Shape (sender_notifies x h l) = receiver_woken x h l
notify-Shape (receiver_woken x h l) = receiver_woken x h l
notify-Shape (next_sender x y h l) = next_sender x y h l

acquire-Shape : {T : Type 0} {c : ZeroChannel T} → Shape c → Shape (step acquire_called c)
unfolding step
acquire-Shape (alone l) = receiver_enters l
acquire-Shape (sender_enters x l) = sender_first x l
acquire-Shape (sender_waits x l) = receiver_meets x l
acquire-Shape (receiver_enters l) = receiver_enters l
acquire-Shape (receiver_first x l) = receiver_first x l
acquire-Shape (sender_first x l) = sender_first x l
acquire-Shape (receiver_meets x l) = receiver_meets x l
acquire-Shape (receiver_waits l) = receiver_waits l
acquire-Shape (sender_meets x l) = sender_meets x l
acquire-Shape (sender_woken x l) = sender_woken x l
acquire-Shape (sender_notifies x h l) = sender_notifies x h l
acquire-Shape (receiver_woken x h l) = receiver_woken x h l
acquire-Shape (next_sender x y h l) = next_sender x y h l

release-Shape :
    {T : Type 0} {c : ZeroChannel T} (y : T) → Shape c → Shape (step (release_called y) c)
unfolding step
release-Shape y (alone l) = sender_enters y l
release-Shape y (sender_enters x l) = sender_enters x l
release-Shape y (sender_waits x l) = sender_waits x l
release-Shape y (receiver_enters l) = receiver_first y l
release-Shape y (receiver_first x l) = receiver_first x l
release-Shape y (sender_first x l) = sender_first x l
release-Shape y (receiver_meets x l) = receiver_meets x l
release-Shape y (receiver_waits l) = sender_meets y l
release-Shape y (sender_meets x l) = sender_meets x l
release-Shape y (sender_woken x l) = sender_woken x l
release-Shape y (sender_notifies x h l) = sender_notifies x h l
release-Shape y (receiver_woken x h l) = next_sender x y h l
release-Shape y (next_sender x z h l) = next_sender x z h l

step-Shape : {T : Type 0} {c : ZeroChannel T} (e : Event T) → Shape c → Shape (step e c)
step-Shape acquire_called v = acquire-Shape v
step-Shape (release_called x) v = release-Shape x v
step-Shape owner v = owner-Shape v
step-Shape notify v = notify-Shape v

pub run-Shape : {T : Type 0} (es : List (Event T)) {c : ZeroChannel T} → Shape c → Shape (run es c)
unfolding run
run-Shape [] v = v
run-Shape (e ∷ es) v = run-Shape es (step-Shape e v)
