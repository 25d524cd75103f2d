-- ===== src/Probe/Keys.antt =====
-- The keys of the four tables of net-probe/src/mitm_trace.cpp.
use nx_reverse.Base.{ℕ, ◌≡◌, arith, true, ℤ, pos, negsuc}
use nx_reverse.Probe.{
  DomainPathEntry, SessionEntry, SessionHandleEntry, CloneHandleEntry, is_path, is_session,
  is_handle, is_clone_handle, same_handle,
}
use nx_reverse.Probe.Table.Keyed.{Key}

pub same_handle_refl : (h : ℤ) → same_handle h h ≡ true
same_handle_refl (pos n) = ground arith
same_handle_refl (negsuc n) = ground arith

pub path-used : (k : ℕ × ℕ) (e : DomainPathEntry) → is_path k.0 k.1 e ≡ true → e.used ≡ true
path-used k e h = ground arith

pub path-same :
    (k l : ℕ × ℕ) (e : DomainPathEntry)
    → is_path k.0 k.1 e ≡ true
    → is_path l.0 l.1 e ≡ true
    → k ≡ l
path-same k l e h i = ground arith

abbrev pub path_key : Key DomainPathEntry (ℕ × ℕ)
path_key = record {
  at = λ k e. is_path k.0 k.1 e;
  used = λ e. e.used;
  at_used = path-used;
  at_same = path-same;
}

pub session-used :
    {S C : Type 0} (k : ℕ) (e : SessionEntry S C) → is_session k e ≡ true → e.used ≡ true
session-used k e h = ground arith

pub session-same :
    {S C : Type 0} (k l : ℕ) (e : SessionEntry S C)
    → is_session k e ≡ true
    → is_session l e ≡ true
    → k ≡ l
session-same k l e h i = ground arith

abbrev pub session_key : {S C : Type 0} → Key (SessionEntry S C) ℕ
session_key = record {
  at = λ k e. is_session k e;
  used = λ e. e.used;
  at_used = session-used;
  at_same = session-same;
}

pub handle-used : (k : ℕ × ℤ) (e : SessionHandleEntry) → is_handle k.0 k.1 e ≡ true → e.used ≡ true
handle-used k e h = ground arith

pub handle-same :
    (k l : ℕ × ℤ) (e : SessionHandleEntry)
    → is_handle k.0 k.1 e ≡ true
    → is_handle l.0 l.1 e ≡ true
    → k ≡ l
handle-same k l e h i = ground arith

abbrev pub handle_key : Key SessionHandleEntry (ℕ × ℤ)
handle_key = record {
  at = λ k e. is_handle k.0 k.1 e;
  used = λ e. e.used;
  at_used = handle-used;
  at_same = handle-same;
}

pub clone-used :
    (k : ℕ × ℤ) (e : CloneHandleEntry) → is_clone_handle k.0 k.1 e ≡ true → e.used ≡ true
clone-used k e h = ground arith

pub clone-same :
    (k l : ℕ × ℤ) (e : CloneHandleEntry)
    → is_clone_handle k.0 k.1 e ≡ true
    → is_clone_handle l.0 l.1 e ≡ true
    → k ≡ l
clone-same k l e h i = ground arith

abbrev pub clone_key : Key CloneHandleEntry (ℕ × ℤ)
clone_key = record {
  at = λ k e. is_clone_handle k.0 k.1 e;
  used = λ e. e.used;
  at_used = clone-used;
  at_same = clone-same;
}
