-- ===== src/NetDrive/Known.antt =====
-- `onEvent` of a socket that the drive does not have.
use rednet.Common.{ℕ, ◌≡◌, refl, Option, none, some}
use rednet.NetDrive.{
  NetDrive, grab, on_close, on_open, on_accept, on_error, on_warn, on_data, on_event, AsynResult,
  accepted, received, opened, failed, closed, warned, other, done,
}

-- the socket that a result is about
unfoldable pub target : AsynResult → Option ℕ
target (accepted id) = some id
target (received id bytes) = some id
target (opened id) = some id
target (failed id) = some id
target (closed id) = some id
target (warned id) = some id
target other = none

inner : (id k : ℕ) → some id ≡ some k → id ≡ k
inner id k e = cc

-- A result about a socket that the drive does not have, of whatever type, changes no socket, runs no
-- callback, and ends at once.
pub on_event-done :
    (f : ℕ) (run recv : ℕ → NetDrive → NetDrive) (r : AsynResult) (d : NetDrive) (id : ℕ)
    → target r ≡ some id
    → grab d id ≡ none
    → (on_event f run recv r d).0 ≡ done d
unfolding on_event on_close on_open on_accept on_error on_warn on_data target
on_event-done f run recv (accepted k) d id e h = rw (inner k id e, h) refl
on_event-done f run recv (received k bytes) d id e h = rw (inner k id e, h) refl
on_event-done f run recv (opened k) d id e h = rw (inner k id e, h) refl
on_event-done f run recv (failed k) d id e h = rw (inner k id e, h) refl
on_event-done f run recv (closed k) d id e h = rw (inner k id e, h) refl
on_event-done f run recv (warned k) d id e h = rw (inner k id e, h) refl
on_event-done f run recv other d id e h = refl
