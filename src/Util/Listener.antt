-- ===== src/Util/Listener.antt =====
-- src/socket.rs and src/socket/unix.rs: the listeners of both kinds and their streams. The sockets of
-- the system are records of what can be done with them.
use pipitor.Base.{ℕ, zero, suc, List, [], ◌∷◌, map, Bool, Option, ◌≡◌, refl}
use pipitor.Util.Socket.{Addr, tcp, unix}

pub data Result (A : Type 0) : Type 0 where
  ok : A → Result A
  error : Result A

-- `Result::map`.
abbrev pub map_ok : {A B : Type 0} → (A → B) → Result A → Result B
map_ok f (ok a) = ok (f a)
map_ok f error = error

-- A poll of a stream.
pub data Polled (A : Type 0) : Type 0 where
  pending ended : Polled A
  item : Result A → Polled A

abbrev pub map_item : {A B : Type 0} → (A → B) → Polled A → Polled B
map_item f pending = pending
map_item f ended = ended
map_item f (item r) = item (map_ok f r)

-- `Bind`: a listener at an address of type `S`, in a system of type `F`.
pub record Bind (F S L : Type 0) : Type 0 where
  pub bind : S → F → Result L × F

-- `TryStream`.
pub record Accepts (L A : Type 0) : Type 0 where
  pub try_poll_next : L → Polled A × L

-- `AsyncRead` and `AsyncWrite`: a read of at most so many bytes, and a write of some of them.
pub record Duplex (S : Type 0) : Type 0 where
  pub poll_read : ℕ → S → Option (Result (List ℕ)) × S
  pub poll_write : List ℕ → S → Option (Result ℕ) × S
  pub poll_flush : S → Option (Result (Unit {0})) × S
  pub poll_shutdown : S → Option (Result (Unit {0})) × S
  pub poll_write_vectored : List (List ℕ) → S → Option (Result ℕ) × S
  pub is_write_vectored : S → Bool

-- `Listener` and `Stream`.
pub data Kind (T U : Type 0) : Type 0 where
  of_tcp : T → Kind T U
  of_unix : U → Kind T U

module _ {F S T U : Type 0} (b : Bind F S T) (c : Bind F (List ℕ) U) where
  unfoldable pub bind : Addr S → F → Result (Kind T U) × F
  bind (tcp addr) fs = (let (r, fs') = b.bind addr fs in (map_ok of_tcp r, fs'))
  bind (unix path) fs = (let (r, fs') = c.bind path fs in (map_ok of_unix r, fs'))

-- `UnixListener`: what stands at the path is removed, whether that succeeds or not.
unfoldable pub bind_unix : {F U : Type 0} → (List ℕ → F → F) → Bind F (List ℕ) U → Bind F (List ℕ) U
bind_unix remove_file std = record { bind = λ path fs. std.bind path (remove_file path fs) }

module _ {T U A B : Type 0} (x : Accepts T A) (y : Accepts U B) where
  unfoldable pub poll_next : Kind T U → Polled (Kind A B) × Kind T U
  poll_next (of_tcp l) = (let (p, l') = x.try_poll_next l in (map_item of_tcp p, of_tcp l'))
  poll_next (of_unix l) = (let (p, l') = y.try_poll_next l in (map_item of_unix p, of_unix l'))

module _ {T U : Type 0} (x : Duplex T) (y : Duplex U) where
  abbrev on_tcp : {R : Type 0} → R × T → R × Kind T U
  on_tcp (r, s) = (r, of_tcp s)

  abbrev on_unix : {R : Type 0} → R × U → R × Kind T U
  on_unix (r, s) = (r, of_unix s)

  abbrev read : ℕ → Kind T U → Option (Result (List ℕ)) × Kind T U
  read n (of_tcp s) = on_tcp (x.poll_read n s)
  read n (of_unix s) = on_unix (y.poll_read n s)

  abbrev write : List ℕ → Kind T U → Option (Result ℕ) × Kind T U
  write buf (of_tcp s) = on_tcp (x.poll_write buf s)
  write buf (of_unix s) = on_unix (y.poll_write buf s)

  abbrev flush : Kind T U → Option (Result (Unit {0})) × Kind T U
  flush (of_tcp s) = on_tcp (x.poll_flush s)
  flush (of_unix s) = on_unix (y.poll_flush s)

  abbrev shutdown : Kind T U → Option (Result (Unit {0})) × Kind T U
  shutdown (of_tcp s) = on_tcp (x.poll_shutdown s)
  shutdown (of_unix s) = on_unix (y.poll_shutdown s)

  abbrev write_vectored : List (List ℕ) → Kind T U → Option (Result ℕ) × Kind T U
  write_vectored bufs (of_tcp s) = on_tcp (x.poll_write_vectored bufs s)
  write_vectored bufs (of_unix s) = on_unix (y.poll_write_vectored bufs s)

  abbrev vectored : Kind T U → Bool
  vectored (of_tcp s) = x.is_write_vectored s
  vectored (of_unix s) = y.is_write_vectored s

  -- The stream of either kind is a stream again.
  unfoldable pub duplex : Duplex (Kind T U)
  duplex = record {
    poll_read = read;
    poll_write = write;
    poll_flush = flush;
    poll_shutdown = shutdown;
    poll_write_vectored = write_vectored;
    is_write_vectored = vectored;
  }

-- What the next polls of a stream give.
unfoldable pub polls : {L A : Type 0} → Accepts L A → ℕ → L → List (Polled A) × L
polls x zero l = ([], l)
polls x (suc n) l = let (p, l') = x.try_poll_next l in let (ps, l'') = polls x n l' in (p ∷ ps, l'')

module _ {T U A B : Type 0} (x : Accepts T A) (y : Accepts U B) where
  abbrev listener : Accepts (Kind T U) (Kind A B)
  listener = record { try_poll_next = poll_next x y }

  -- A listener gives the connections of its socket, each as a stream of its kind, and stays of its kind.
  pub polls-of_tcp :
      (n : ℕ) (l : T)
      → polls listener n (of_tcp l)
        ≡ (map (map_item of_tcp) (polls x n l).0, of_tcp (polls x n l).1)
  unfolding polls poll_next
  polls-of_tcp zero l = refl
  polls-of_tcp (suc n) l = rw (polls-of_tcp n (x.try_poll_next l).1) refl

  pub polls-of_unix :
      (n : ℕ) (l : U)
      → polls listener n (of_unix l)
        ≡ (map (map_item of_unix) (polls y n l).0, of_unix (polls y n l).1)
  unfolding polls poll_next
  polls-of_unix zero l = refl
  polls-of_unix (suc n) l = rw (polls-of_unix n (y.try_poll_next l).1) refl
