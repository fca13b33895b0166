-- ===== src/Liquidity/Keeps.antt =====
-- Actions that keep the liquidity invariant, and how they compose.
use luminarail_backend.Base.{
  Bool, true, false, not, ◌&&◌, Option, none, some, List, [], ◌≡◌, if◌then◌else◌, Bool-cases, inl,
  inr,
}
use luminarail_backend.Store.Rows.{World}
use luminarail_backend.Store.Action.{
  Error, Action, Result, ok, err, or_raise, raise_if, throw_any, recover, pure, audit_log, ◌>>=◌,
}
use luminarail_backend.Store.Config.{Config}
use luminarail_backend.Lock.Guard.{LockAnswer, take_lock, give_back, finally_release, locked_sweep}
use luminarail_backend.Liquidity.Invariant.{IsSound, IsSound-at}

abbrev pub Keeps : {A : Type 0} → Action A → Type 0
Keeps m = (w : World) → IsSound w → IsSound (m w).1

bind_of :
    {A B : Type 0} (end : Result A × World) (f : A → Action B)
    → IsSound end.1
    → ((a : A) → Keeps (f a))
    → IsSound (((λ (_ : World). end) >>= f) end.1).1
bind_of (ok a, w) f h rest = rest a w h
bind_of (err e, w) f h rest = h

pub Keeps-bind :
    {A B : Type 0} (m : Action A) (f : A → Action B)
    → Keeps m
    → ((a : A) → Keeps (f a))
    → Keeps (m >>= f)
Keeps-bind m f first rest w h = bind_of (m w) f (first w h) rest

pub Keeps-or_raise : {A : Type 0} (o : Option A) (e : Error) → Keeps (or_raise o e)
Keeps-or_raise none e w h = h
Keeps-or_raise (some a) e w h = h

pub Keeps-raise_if : (c : Bool) (e : Error) → Keeps (raise_if c e)
Keeps-raise_if true e w h = h
Keeps-raise_if false e w h = h

pub Keeps-throw_any : (o : Option Error) → Keeps (throw_any o)
Keeps-throw_any none w h = h
Keeps-throw_any (some e) w h = h

pub Keeps-if :
    {A : Type 0} (c : Bool) (m k : Action A) → Keeps m → Keeps k → Keeps (if c then m else k)
Keeps-if true m k first second = first
Keeps-if false m k first second = second

-- An action that leaves the pools, the reservations and the source of ids alone.
pub Keeps-untouched :
    {A : Type 0} (m : Action A)
    → ((w : World)
        → ((m w).1.tables.pools ≡ w.tables.pools)
          × ((m w).1.tables.reservations ≡ w.tables.reservations)
          × ((m w).1.next_id ≡ w.next_id))
    → Keeps m
Keeps-untouched m same w h = let (p, r, n) = same w in IsSound-at (m w).1 h p r n

-- What follows an exception starts from what the exception has left.
pub recover-Keeps : {A : Type 0} (m h : Action A) → Keeps m → Keeps h → Keeps (recover m h)
recover-Keeps m h first second w sound = recovered (m w) h (first w sound) second
  where
    recovered :
        {A : Type 0} (end : Result A × World) (k : Action A)
        → IsSound end.1
        → Keeps k
        → IsSound (recover (λ w. end) k end.1).1
    recovered (ok a, v) k kept next = kept
    recovered (err e, v) k kept next = next v kept

Keeps-take_lock : (cfg : Config) (lock : LockAnswer) → Keeps (take_lock cfg lock)
unfolding take_lock audit_log
Keeps-take_lock cfg (LockAnswer.acquired b) w h = h
Keeps-take_lock cfg LockAnswer.taken w h = h
Keeps-take_lock cfg LockAnswer.unreachable w h = elim (Bool-cases cfg.locks_required) [
  | inl required ↦ rw required h
  | inr optional ↦ rw optional h
]

given_back : (lock : LockAnswer) (w : World) → IsSound w → IsSound (give_back lock w)
unfolding give_back audit_log
given_back (LockAnswer.acquired true) w h = h
given_back (LockAnswer.acquired false) w h = h
given_back LockAnswer.taken w h = h
given_back LockAnswer.unreachable w h = h

-- A sweep under a lock, whose log entries the invariant does not read.
pub Keeps-locked_sweep :
    {A : Type 0} (cfg : Config) (lock : LockAnswer) (m : Action (List A))
    → Keeps m
    → Keeps (locked_sweep cfg lock m)
unfolding locked_sweep finally_release
Keeps-locked_sweep cfg lock m work =
    Keeps-bind (take_lock cfg lock)
      (λ got. if not got && cfg.locks_required then pure [] else finally_release lock m)
      (Keeps-take_lock cfg lock)
      (λ got.
        Keeps-if (not got && cfg.locks_required) (pure []) (finally_release lock m) (λ w h. h)
          (λ w h. given_back lock (m w).1 (work w h)))
