-- ===== src/Camera/Prepared/Owned.antt =====
-- How a result comes out of an operation of winrt/Projection.cpp that owns a camera stream or session.
use matter_winrt.Base.{ℕ, ◌≡◌, refl, Result, ok, err}
use matter_winrt.Camera.Failure.{Stage}
use matter_winrt.Camera.Metadata.{Fault}
use matter_winrt.Camera.Metadata.Audio.{Staged, during, after}
use matter_winrt.Camera.Prepared.{Ending, recover, owning}

-- A result comes from the try block.
pub recover-ok :
    {A : Type 0} (cleanup : Stage) (release : Result Fault (Unit {0})) (id : ℕ) (r : Staged A)
    (a : A)
    → (recover cleanup release id r).result ≡ ok a
    → r.1 ≡ ok a
recover-ok cleanup release id (s, ok b) a h = h
recover-ok cleanup (ok u) id (s, err e) a h = absurd (cc)
recover-ok cleanup (err f) id (s, err e) a h = absurd (cc)

pub owning-ok :
    {A B : Type 0} (r : Staged A) (k : A → Ending B) (b : B)
    → (owning r k).result ≡ ok b
    → (a : A) × (r.1 ≡ ok a) × ((k a).result ≡ ok b)
owning-ok (s, ok a) k b h = (a, refl, h)
owning-ok (s, err e) k b h = absurd (cc)

-- The last steps of an operation that has ended with a result.
pub from_after :
    {A B Q : Type 0} (b : B) (r : Staged A) (k : A → Staged B)
    → ((a : A) → r.1 ≡ ok a → (k a).1 ≡ ok b → Q)
    → (after r k).1 ≡ ok b
    → Q
from_after b (s, ok a) k next h = next a refl h
from_after b (s, err e) k next h = cc

pub from_during :
    {A B Q : Type 0} (b : B) (s : Stage) (r : Result Fault A) (k : A → Staged B)
    → ((a : A) → r ≡ ok a → (k a).1 ≡ ok b → Q)
    → (during s r k).1 ≡ ok b
    → Q
from_during b s (ok a) k next h = next a refl h
from_during b s (err e) k next h = cc

pub from_owning :
    {A B Q : Type 0} (b : B) (r : Staged A) (k : A → Ending B)
    → ((a : A) → r.1 ≡ ok a → (k a).result ≡ ok b → Q)
    → (owning r k).result ≡ ok b
    → Q
from_owning b (s, ok a) k next h = next a refl h
from_owning b (s, err e) k next h = cc
