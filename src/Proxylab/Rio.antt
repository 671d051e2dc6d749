-- ===== src/Proxylab/Rio.antt =====
-- The Rio package of proxylab/csapp.c. What `read` and `write` of the kernel do is a list of events;
-- a file at its end has none left. `errno` is looked at right after the call that sets it. The loop
-- of `rio_readn` and `rio_readnb` is one function over the reader that it calls.
pub mod Source
pub mod Readn
pub mod Lines
pub mod Kept
pub mod Writen
mod Tests
use git_sty.Base.{
  ℕ, zero, suc, ◌+◌, ◌-◌, ◌≡◌, ◌<◌, ◌≤◌, Bool, true, false, List, [], ◌∷◌, ◌++◌, ◌==◌,
  if◌then◌else◌, ltb, Text, take, drop, length,
}

-- What a call of `read` or `rio_read` gives.
pub data Got : Type 0 where
  bytes : Text → Got
  eof interrupted failed : Got

-- What the kernel has in store: bytes (one at least), a signal, or an error.
pub data Event : Type 0 where
  chunk : ℕ → Text → Event
  signal broken : Event

abbrev pub Source : Type 0
Source = List Event

-- Bytes that a `read` leaves are there for the next one.
abbrev pub push : Text → Source → Source
push [] s = s
push (b ∷ bs) s = chunk b bs ∷ s

unfoldable pub read : ℕ → Source → Got × Source
read n [] = (eof, [])
read n (signal ∷ s) = (interrupted, s)
read n (broken ∷ s) = (failed, s)
read n (chunk b bs ∷ s) = (bytes (take n (b ∷ bs)), push (drop n (b ∷ bs)) s)

-- The result of a counted read: the bytes stored, or -1.
pub data Stored (S : Type 0) : Type 0 where
  stored : Text → S → Stored S
  error : S → Stored S
  out_of_fuel : Stored S

abbrev pub prepend : {S : Type 0} → Text → Stored S → Stored S
prepend bs (stored more s) = stored (bs ++ more) s
prepend bs (error s) = error s
prepend bs out_of_fuel = out_of_fuel

-- The body of `while (nleft > 0)` after the call of the reader; `again` is the loop from there.
unfoldable pub after_call : {S : Type 0} → (ℕ → S → Stored S) → ℕ → Got → S → Stored S
after_call again nleft (bytes bs) s = prepend bs (again (nleft - length bs) s)
after_call again nleft eof s = stored [] s
after_call again nleft interrupted s = again nleft s
after_call again nleft failed s = error s

-- `while (nleft > 0)`, over `read` or `rio_read`.
unfoldable pub read_loop : {S : Type 0} → (ℕ → S → Got × S) → ℕ → ℕ → S → Stored S
read_loop reader zero nleft s = out_of_fuel
read_loop reader (suc k) zero s = stored [] s
read_loop reader (suc k) (suc nleft) s =
    let r = reader (suc nleft) s in after_call (λ m t. read_loop reader k m t) (suc nleft) r.0 r.1

unfoldable pub rio_readn : ℕ → ℕ → Source → Stored Source
rio_readn fuel n s = read_loop read fuel n s

abbrev pub rio_bufsize : ℕ
rio_bufsize = 8192

-- `rio_t` with its descriptor: the `rio_cnt` unread bytes at `rio_bufptr`.
pub record Rio : Type 0 where
  pub unread : Text
  pub fd : Source

unfoldable pub rio_readinitb : Source → Rio
rio_readinitb s = record { unread = []; fd = s }

-- The `while (rp->rio_cnt <= 0)` loop: an interrupted `read` is made again.
unfoldable pub refill : Source → Got × Source
refill [] = read rio_bufsize []
refill (chunk b bs ∷ s) = read rio_bufsize (chunk b bs ∷ s)
refill (signal ∷ s) = refill s
refill (broken ∷ s) = read rio_bufsize (broken ∷ s)

abbrev pub hand_out : ℕ → Text → Source → Got × Rio
hand_out n bs s = (bytes (take n bs), record { unread = drop n bs; fd = s })

unfoldable pub after_refill : ℕ → Got × Source → Got × Rio
after_refill n (bytes bs, s) = hand_out n bs s
after_refill n (eof, s) = (eof, record { unread = []; fd = s })
after_refill n (interrupted, s) = (failed, record { unread = []; fd = s })
after_refill n (failed, s) = (failed, record { unread = []; fd = s })

unfoldable pub fill_or_hand : ℕ → Text → Source → Got × Rio
fill_or_hand n [] s = after_refill n (refill s)
fill_or_hand n (b ∷ bs) s = hand_out n (b ∷ bs) s

unfoldable pub rio_read : ℕ → Rio → Got × Rio
rio_read n r = fill_or_hand n r.unread r.fd

pub rio_readnb : ℕ → ℕ → Rio → Stored Rio
rio_readnb fuel n r = read_loop rio_read fuel n r

-- What `rio_readlineb` leaves: the bytes in `usrbuf`, the number returned, and the reader.
pub record LineRead : Type 0 where
  pub text : Text
  pub count : ℕ
  pub rio : Rio

pub data LineResult : Type 0 where
  line : LineRead → LineResult
  line_error : Rio → LineResult

-- The body of the `for` loop after `rio_read`, with `acc` stored so far; `again` is the loop from
-- `n++`.
unfoldable pub after_byte : (ℕ → Text → Rio → LineResult) → ℕ → Text → Got → Rio → LineResult
after_byte again n acc (bytes []) r = line_error r
after_byte again n acc (bytes (c ∷ cs)) r =
    if c == b'\n'
    then line (record { text = acc ++ (c ∷ []); count = n; rio = r })
    else again (n + 1) (acc ++ (c ∷ [])) r
after_byte again n acc eof r =
    line (record { text = acc; count = if n == 1 then 0 else n; rio = r })
after_byte again n acc interrupted r = line_error r
after_byte again n acc failed r = line_error r

-- The `for` loop with `rounds = maxlen - n` rounds left.
unfoldable pub line_loop : (rounds n : ℕ) → Text → Rio → LineResult
line_loop zero n acc r = line (record { text = acc; count = n; rio = r })
line_loop (suc k) n acc r =
    let q = rio_read 1 r in after_byte (λ m t s. line_loop k m t s) n acc q.0 q.1

pub rio_readlineb : ℕ → Rio → LineResult
rio_readlineb maxlen r = line_loop (maxlen - 1) 1 [] r

-- What a call of `write` does: take some bytes (one at least), be interrupted or fail. Without an
-- event it takes all.
pub data Sink : Type 0 where
  takes : ℕ → Sink
  stops breaks : Sink

-- `rio_writen`: what was written, and whether it returns `n` or -1.
unfoldable pub writen_loop : List Sink → Text → Text × Bool
writen_loop events [] = ([], true)
writen_loop [] (b ∷ bs) = (b ∷ bs, true)
writen_loop (takes k ∷ events) (b ∷ bs) =
    let (out, done) = writen_loop events (drop k bs) in (b ∷ (take k bs ++ out), done)
writen_loop (stops ∷ events) (b ∷ bs) = writen_loop events (b ∷ bs)
writen_loop (breaks ∷ events) (b ∷ bs) = ([], false)

pub rio_writen : List Sink → Text → Text × Bool
rio_writen events usrbuf = writen_loop events usrbuf
