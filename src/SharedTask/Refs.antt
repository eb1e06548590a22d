-- ===== src/SharedTask/Refs.antt =====
-- include/co_context/shared_task.hpp, `shared_task`: the objects that share a coroutine, and its
-- reference count. `coroutine_` is the address of the frame, and 0 is the empty handle.
pub mod Counts
pub mod Invariant
use co_context.Prelude.{
  ℕ, suc, ◌+◌, ◌^◌, ◌≡◌, ◌≢◌, ◌<◌, List, [], ◌∷◌, ◌++◌, Bool, not, ◌==◌, if◌then◌else◌, word_add,
  word_sub, length, set, get_or,
}

-- Of each frame: `ref_count_`, how often it was destroyed, and how often it was made.
pub record Frames : Type 0 where
  pub ref_count : ℕ → ℕ
  pub destroyed : ℕ → ℕ
  pub made : ℕ → ℕ

abbrev pub change : (ℕ → ℕ) → ℕ → ℕ → ℕ → ℕ
change f c n b = if b == c then n else f b

unfoldable pub add_ref : ℕ → Frames → Frames
add_ref c f = record f { ref_count = change f.ref_count c (word_add (2 ^ 32) (f.ref_count c) 1) }

unfoldable pub try_detach : ℕ → Frames → Bool × Frames
try_detach c f = (
  not (f.ref_count c == 1),
  record f { ref_count = change f.ref_count c (word_sub (2 ^ 32) (f.ref_count c) 1) },
)

-- `destroy` of an object with this handle.
unfoldable pub destroy : ℕ → Frames → Frames
destroy coroutine_ f =
    let (detached, f') = try_detach coroutine_ f in
    let gone = record f' {
      destroyed = change f'.destroyed coroutine_ (suc (f'.destroyed coroutine_));
    } in
    if coroutine_ == 0 then f else if detached then f' else gone

-- The constructor of the promise.
unfoldable pub make : ℕ → Frames → Frames
make c f = record f { ref_count = change f.ref_count c 1; made = change f.made c (suc (f.made c)) }

-- The objects, by their position. An object that was destroyed or moved from is empty.
pub record Handles : Type 0 where
  pub objects : List ℕ
  pub frames : Frames

abbrev pub coroutine_of : List ℕ → ℕ → ℕ
coroutine_of objects i = get_or objects i 0

unfoldable pub copied : ℕ → Frames → Frames
copied coroutine_ f = if coroutine_ == 0 then f else add_ref coroutine_ f

unfoldable pub copy_assign : (i j : ℕ) → Handles → Handles
copy_assign i j s =
    let ours = coroutine_of s.objects i in
    let others = coroutine_of s.objects j in
    if ours == others
    then s
    else record { objects = set s.objects i others; frames = copied others (destroy ours s.frames) }

unfoldable pub move_assign : (i j : ℕ) → Handles → Handles
move_assign i j s = if i == j then s else record {
  objects = set (set s.objects i (coroutine_of s.objects j)) j 0;
  frames = destroy (coroutine_of s.objects i) s.frames;
}

pub data Step (s : Handles) : Handles → Type 0 where
  -- `get_return_object`, of a frame that is new.
  constructs :
      (c : ℕ)
      → c ≢ 0
      → s.frames.made c ≡ 0
      → Step s (record { objects = s.objects ++ c ∷ []; frames = make c s.frames })
  copies :
      (i : ℕ)
      → Step s (record {
        objects = s.objects ++ coroutine_of s.objects i ∷ [];
        frames = copied (coroutine_of s.objects i) s.frames;
      })
  moves :
      (i : ℕ)
      → i < length s.objects
      → Step s (record s { objects = set s.objects i 0 ++ coroutine_of s.objects i ∷ [] })
  destructs :
      (i : ℕ)
      → i < length s.objects
      → Step s (record {
        objects = set s.objects i 0;
        frames = destroy (coroutine_of s.objects i) s.frames;
      })
  copy_assigns : (i j : ℕ) → i < length s.objects → Step s (copy_assign i j s)
  move_assigns :
      (i j : ℕ) → i < length s.objects → j < length s.objects → Step s (move_assign i j s)
  swaps :
      (i j : ℕ)
      → i < length s.objects
      → j < length s.objects
      → Step s (record s {
        objects = set (set s.objects i (coroutine_of s.objects j)) j (coroutine_of s.objects i);
      })

abbrev pub start : Handles
start = record {
  objects = [];
  frames = record { ref_count = λ c. 0; destroyed = λ c. 0; made = λ c. 0 };
}

pub data Reach : Handles → Type 0 where
  here : Reach start
  later : {s t : Handles} → Reach s → Step s t → Reach t
