-- ===== src/Core/Safety/Rules.antt =====
-- src/core/torrent_core: the rules and the steps, for a safety that is a record over the function.
use t2h.Common.{
  ℕ, ◌≤◌, ◌<◌, Bool, true, false, List, Option, none, some, Bytes, if◌then◌else◌, ◌≡◌, ◌≢◌, refl,
  arith,
}
use t2h.Core.World.{
  Call, Core, TorrentExInfo, AddTorrentFuture, Event, Libtorrent, M, ◌>>=◌, pure, get_state,
  exception_safe, leaving, call, session_call, get_torrent_info_of, save_path_of, with_buffer,
  set_buffer, load, store, load_future, store_future, erase_future, new_info, emit,
}
use t2h.Core.Buffer.{get}
use t2h.Core.Safety.{Safe, Any, pure-Safe, bind-Safe, exception_safe-Safe, leaving-Safe}
use t2h.Core.Safety.Steps.{
  call-Safe, session_call-Safe, get_torrent_info_of-Safe, save_path_of-Safe, Found, Inside,
  with_buffer-Safe, set_buffer-Safe, load-Safe, store-Safe, new_info-Safe, emit-Safe,
  load_future-Safe, store_future-Safe, erase_future-Safe, future-Safe,
}

pub record IsSafe {A : Type 0} (K : Bool) (n : ℕ) (Q : A → ℕ → Type 0) (m : M A) : Type 0 where
  pub run : Safe K n Q m

module _ {A : Type 0} {Q : A → ℕ → Type 0} {K : Bool} where
  pub more-IsSafe : {n j : ℕ} {m : M A} → n ≤ j → IsSafe K n Q m → IsSafe K j Q m
  more-IsSafe l hm = record { run = λ s h k. hm.run s h (omega (arith, l, k)) }

  pub if-IsSafe :
      {n : ℕ} (b : Bool) {m f : M A}
      → IsSafe K n Q m
      → IsSafe K n Q f
      → IsSafe K n Q (if b then m else f)
  if-IsSafe true hm hf = hm
  if-IsSafe false hm hf = hf

  pub state-IsSafe :
      {n : ℕ} {f : Core → M A} → ((t : Core) → IsSafe K n Q (f t)) → IsSafe K n Q (get_state >>= f)
  unfolding ◌>>=◌ get_state
  state-IsSafe hf = record { run = λ s h k. (hf s).run s h k }

  pub leaving-IsSafe :
      {n : ℕ} {d : M (Unit {0})} {m : M A}
      → IsSafe K n Any d
      → IsSafe K n Q m
      → IsSafe K n Any (leaving d m)
  leaving-IsSafe {n} {d} {m} hd hm = record { run = leaving-Safe n d m hd.run hm.run }

  -- A choice by what a search gave.
  pub option-IsSafe :
      {B : Type 0} {n : ℕ} (o : Option B) {m : M A} {f : B → M A}
      → IsSafe K n Q m
      → ((b : B) → o ≡ some b → IsSafe K n Q (f b))
      → IsSafe K n Q (elim o [ none ↦ m | some b ↦ f b ])
  option-IsSafe none hm hf = hm
  option-IsSafe (some b) hm hf = hf b refl

  -- A search that finds something.
  pub some-IsSafe :
      {B : Type 0} {n : ℕ} (o : Option B) (m : M A) {f : B → M A}
      → o ≢ none
      → ((b : B) → IsSafe K n Q (f b))
      → IsSafe K n Q (elim o [ none ↦ m | some b ↦ f b ])
  some-IsSafe none m d h = absurd (d refl)
  some-IsSafe (some b) m d h = h b

module _ {A B : Type 0} {Q : A → ℕ → Type 0} {R : B → ℕ → Type 0} {K : Bool} where
  pub bind-IsSafe :
      {n : ℕ} {m : M A} {f : A → M B}
      → IsSafe K n Q m
      → ((a : A) (j : ℕ) → n ≤ j → Q a j → IsSafe K j R (f a))
      → IsSafe K n R (m >>= f)
  bind-IsSafe {n} {m} {f} hm hf = record {
    run = bind-Safe n m f hm.run (λ a j l q. (hf a j l q).run);
  }

-- A step whose value does not matter to the safety of what follows.
pub next-IsSafe :
    {K : Bool} {A B : Type 0} {R : B → ℕ → Type 0} {n : ℕ} {m : M A} {f : A → M B}
    → IsSafe K n Any m
    → ((a : A) → IsSafe K n R (f a))
    → IsSafe K n R (m >>= f)
next-IsSafe hm hf = bind-IsSafe hm (λ a j l q. more-IsSafe l (hf a))

pub pure-IsSafe : {K : Bool} {A : Type 0} {n : ℕ} (a : A) → IsSafe K n Any (pure a)
pure-IsSafe {K} {A} {n} a = record { run = pure-Safe n a }

pub exception_safe-IsSafe :
    {K : Bool} {A : Type 0} {n : ℕ} (a : A) {m : M A}
    → IsSafe K n Any m
    → IsSafe K n Any (exception_safe a m)
exception_safe-IsSafe {K} {A} {n} a {m} hm = record { run = exception_safe-Safe n a m hm.run }

module _ (lt : Libtorrent) {K : Bool} {n : ℕ} where
  pub call-IsSafe : (c : Call) → IsSafe K n Any (call lt c)
  call-IsSafe c = record { run = call-Safe lt n c }

  pub session_call-IsSafe : (c : Call) → IsSafe K n Any (session_call lt c)
  session_call-IsSafe c = record { run = session_call-Safe lt n c }

  pub get_torrent_info_of-IsSafe : (h : ℕ) → IsSafe K n Any (get_torrent_info_of lt h)
  get_torrent_info_of-IsSafe h = record { run = get_torrent_info_of-Safe lt n h }

  pub save_path_of-IsSafe : (h : ℕ) → IsSafe K n Any (save_path_of lt h)
  save_path_of-IsSafe h = record { run = save_path_of-Safe lt n h }

module _ {K : Bool} {n : ℕ} where
  -- What is searched in the buffer is a pointer that was given out.
  pub sought-IsSafe :
      (hasher : Bytes → ℕ) (path : Bytes) → IsSafe K n Found (with_buffer (λ b. get hasher b path))
  unfolding get
  sought-IsSafe hasher path = record {
    run =
        with_buffer-Safe {Q = Found} n (λ b. get hasher b path) (λ b j g p e. g (hasher path) p e);
  }

  pub buffer-IsSafe :
      {A : Type 0} {Q : A → ℕ → Type 0} (f : List (ℕ × ℕ) → A)
      → ((b : List (ℕ × ℕ)) (j : ℕ) → Inside b j → Q (f b) j)
      → IsSafe K n Q (with_buffer f)
  buffer-IsSafe {A} {Q} f q = record { run = with_buffer-Safe n f q }

  pub set_buffer-IsSafe : (b : List (ℕ × ℕ)) → Inside b n → IsSafe K n Any (set_buffer b)
  set_buffer-IsSafe b g = record { run = set_buffer-Safe n b g }

  pub load-IsSafe : (p : ℕ) → p < n → IsSafe K n Any (load p)
  load-IsSafe p l = record { run = load-Safe n p l }

  pub store-IsSafe : (p : ℕ) (ex : TorrentExInfo) → IsSafe K n Any (store p ex)
  store-IsSafe p ex = record { run = store-Safe n p ex }

  pub new_info-IsSafe : (ex : TorrentExInfo) → IsSafe K n (λ p j. p < j) (new_info ex)
  new_info-IsSafe ex = record { run = new_info-Safe n ex }

  pub emit-IsSafe : (e : Event) → IsSafe K n Any (emit e)
  emit-IsSafe e = record { run = emit-Safe n e }

  pub load_future-IsSafe : (p : ℕ) → IsSafe K n Any (load_future p)
  load_future-IsSafe p = record { run = load_future-Safe n p }

  pub store_future-IsSafe : (p : ℕ) (f : AddTorrentFuture) → IsSafe K n Any (store_future p f)
  store_future-IsSafe p f = record { run = store_future-Safe n p f }

  pub future-IsSafe :
      {A : Type 0} {Q : A → ℕ → Type 0} (p : ℕ) (f : AddTorrentFuture) {m : M (Unit {0})}
      (g : Option AddTorrentFuture → M A)
      → IsSafe true n Any m
      → ((x : AddTorrentFuture) → IsSafe K n Q (g (some x)))
      → IsSafe K n Q (store_future p f >>= λ _. m >>= λ _. load_future p >>= g)
  future-IsSafe {A} {Q} p f {m} g hm hg = record {
    run = future-Safe n p f m g hm.run (λ x. (hg x).run);
  }

pub erase_future-IsSafe : {n : ℕ} (p : ℕ) → IsSafe false n Any (erase_future p)
erase_future-IsSafe {n} p = record { run = erase_future-Safe n p }

pub ruleset safety = (
  pure-IsSafe, next-IsSafe, if-IsSafe, state-IsSafe, exception_safe-IsSafe, option-IsSafe,
  call-IsSafe, session_call-IsSafe, get_torrent_info_of-IsSafe, save_path_of-IsSafe, load-IsSafe,
  store-IsSafe, emit-IsSafe, load_future-IsSafe, store_future-IsSafe,
)
