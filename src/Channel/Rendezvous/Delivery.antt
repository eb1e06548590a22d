-- ===== src/Channel/Rendezvous/Delivery.antt =====
-- What the channel without a buffer delivers, in every run.
use co_context.Prelude.{
  List, [], ◌∷◌, ◌++◌, ◌≡◌, ◌≢◌, refl, sym, Option, none, some, append-nil, All,
}
use co_context.Channel.Rendezvous.{
  r_idle, s_idle, ZeroChannel, Event, acquire_called, release_called, owner, notify, step, run,
  new_zero_channel,
}
use co_context.Channel.Rendezvous.Shapes.{
  Shape, run-Shape, alone, next_sender, receiver_enters, receiver_first, receiver_meets,
  receiver_waits, receiver_woken, sender_enters, sender_first, sender_meets, sender_notifies,
  sender_waits, sender_woken,
}

-- The item that a sender has constructed for the receiver and that it has not taken yet.
abbrev pub under_way : {T : Type 0} → Option T → List T
under_way none = []
under_way (some x) = x ∷ []

Shape-sent : {T : Type 0} {c : ZeroChannel T} → Shape c → c.sent ≡ c.received ++ under_way c.item
Shape-sent (alone l) = sym (append-nil l)
Shape-sent (sender_enters x l) = sym (append-nil l)
Shape-sent (sender_waits x l) = sym (append-nil l)
Shape-sent (receiver_enters l) = sym (append-nil l)
Shape-sent (receiver_first x l) = sym (append-nil l)
Shape-sent (sender_first x l) = sym (append-nil l)
Shape-sent (receiver_meets x l) = sym (append-nil l)
Shape-sent (receiver_waits l) = sym (append-nil l)
Shape-sent (sender_meets x l) = sym (append-nil l)
Shape-sent (sender_woken x l) = sym (append-nil l)
Shape-sent (sender_notifies x h l) = refl
Shape-sent (receiver_woken x h l) = refl
Shape-sent (next_sender x y h l) = refl

-- After any events, the items that receivers have got are those that senders have handed over, in
-- their order, each once, but for the one under way.
pub delivers :
    {T : Type 0} (es : List (Event T))
    → (run es new_zero_channel).sent
      ≡ (run es new_zero_channel).received ++ under_way (run es new_zero_channel).item
delivers es = Shape-sent (run-Shape es (alone []))

-- The events that come by themselves when a receiver and a sender are there.
abbrev pub IsOwn : {T : Type 0} → Event T → Type 0
IsOwn acquire_called = ⊥
IsOwn (release_called x) = ⊥
IsOwn owner = Unit {0}
IsOwn notify = Unit {0}

abbrev pub GetsItem : {T : Type 0} → ZeroChannel T → Type 0
GetsItem {T} c =
    (es : List (Event T)) × (x : T) × All IsOwn es
    × ((run es c).receiver_pc ≡ r_idle)
    × ((run es c).received ≡ c.received ++ x ∷ [])

Shape-GetsItem :
    {T : Type 0} {c : ZeroChannel T}
    → Shape c
    → c.receiver_pc ≢ r_idle
    → c.sender_pc ≢ s_idle
    → GetsItem c
unfolding run step
Shape-GetsItem (alone l) r s = absurd (r refl)
Shape-GetsItem (sender_enters x l) r s = absurd (r refl)
Shape-GetsItem (sender_waits x l) r s = absurd (r refl)
Shape-GetsItem (receiver_enters l) r s = absurd (s refl)
Shape-GetsItem (receiver_waits l) r s = absurd (s refl)
Shape-GetsItem (receiver_woken x h l) r s = absurd (s refl)
Shape-GetsItem (receiver_first x l) r s =
    (owner ∷ owner ∷ notify ∷ owner ∷ [], x, (tt, (tt, (tt, (tt, tt)))), refl, refl)
Shape-GetsItem (sender_first x l) r s =
    (owner ∷ owner ∷ owner ∷ notify ∷ owner ∷ [], x, (tt, (tt, (tt, (tt, (tt, tt))))), refl, refl)
Shape-GetsItem (receiver_meets x l) r s =
    (owner ∷ owner ∷ notify ∷ owner ∷ [], x, (tt, (tt, (tt, (tt, tt)))), refl, refl)
Shape-GetsItem (sender_meets x l) r s =
    (owner ∷ notify ∷ owner ∷ [], x, (tt, (tt, (tt, tt))), refl, refl)
Shape-GetsItem (sender_woken x l) r s =
    (owner ∷ notify ∷ owner ∷ [], x, (tt, (tt, (tt, tt))), refl, refl)
Shape-GetsItem (sender_notifies x h l) r s = (notify ∷ owner ∷ [], x, (tt, (tt, tt)), refl, refl)
Shape-GetsItem (next_sender x y h l) r s = (owner ∷ [], x, (tt, tt), refl, refl)

-- After any events that leave a receiver and a sender there, the receiver gets an item and returns by
-- steps of the owner of the lock and the notification alone: the two never wait for each other.
pub receiver_served :
    {T : Type 0} (es : List (Event T))
    → (run es new_zero_channel).receiver_pc ≢ r_idle
    → (run es new_zero_channel).sender_pc ≢ s_idle
    → GetsItem (run es new_zero_channel)
receiver_served es r s = Shape-GetsItem (run-Shape es (alone [])) r s
