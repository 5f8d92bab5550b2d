-- ===== src/Sys/Ends.antt =====
-- What holds of every run of a program, whatever the answers.
use star_base.Sys.{Call, Answer, Error, Prog, ret, throw, call, ◌>>=◌}

-- Every run returns a value of `P`, or throws an error of `E`.
abbrev pub Ends : {A : Type 0} → (A → Type 0) → (Error → Type 0) → Prog A → Type 0
Ends P E (ret a) = P a
Ends P E (throw e) = E e
Ends P E (call c k) = (r : Answer c) → Ends P E (k r)

-- No run makes any call but those of `Q`.
abbrev pub Calls : {A : Type 0} → (Call → Type 0) → Prog A → Type 0
Calls Q (ret a) = Unit
Calls Q (throw e) = Unit
Calls Q (call c k) = Q c × ((r : Answer c) → Calls Q (k r))

pub bind-Ends :
    {A B : Type 0} (P : A → Type 0) (R : B → Type 0) (E : Error → Type 0) (m : Prog A)
    (f : A → Prog B)
    → Ends P E m
    → ((a : A) → P a → Ends R E (f a))
    → Ends R E (m >>= f)
bind-Ends P R E (ret a) f h k = k a h
bind-Ends P R E (throw e) f h k = h
bind-Ends P R E (call c g) f h k = λ r. bind-Ends P R E (g r) f (h r) k

pub bind-Calls :
    {A B : Type 0} (Q : Call → Type 0) (m : Prog A) (f : A → Prog B)
    → Calls Q m
    → ((a : A) → Calls Q (f a))
    → Calls Q (m >>= f)
bind-Calls Q (ret a) f h k = k a
bind-Calls Q (throw e) f h k = tt
bind-Calls Q (call c g) f (q, h) k = (q, λ r. bind-Calls Q (g r) f (h r) k)

pub weaken-Ends :
    {A : Type 0} (P R : A → Type 0) (E : Error → Type 0) (m : Prog A)
    → ((a : A) → P a → R a)
    → Ends P E m
    → Ends R E m
weaken-Ends P R E (ret a) k h = k a h
weaken-Ends P R E (throw e) k h = h
weaken-Ends P R E (call c g) k h = λ r. weaken-Ends P R E (g r) k (h r)
