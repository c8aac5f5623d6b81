-- ===== src/Adapters/Sqlite/Messages/Serial.antt =====
-- The lists of the messages between the SQLite adapter and its thread: the answers to operations
-- that are handled one after the other, and consecutive ids.
use baileys_session_manager.Base.{
  ℕ, zero, suc, ◌+◌, ◌<◌, ◌≡◌, refl, ap, ap₂, sym, ◌∙◌, true, false, ◌==◌, not, List, [], ◌∷◌, ◌++◌,
  keep, map, length, length-append, if◌then◌else◌, arith,
}
use baileys_session_manager.Adapters.Sqlite.Worker.{Op, Store, handle}
use baileys_session_manager.Adapters.Sqlite.Messages.{Request, WorkerResponse, has}

-- The answers to operations that are handled one after the other, with the ids from `n` on, and
-- the store after them.
abbrev pub serial : ℕ → List Op → Store → List WorkerResponse
serial n [] st = []
serial n (op ∷ ops) st =
    record { id = n; answer = (handle op st).0 } ∷ serial (suc n) ops (handle op st).1

abbrev pub run : List Op → Store → Store
run [] st = st
run (op ∷ ops) st = run ops (handle op st).1

abbrev pub number : ℕ → List Op → List Request
number n [] = []
number n (op ∷ ops) = record { id = n; op = op } ∷ number (suc n) ops

abbrev pub upto : ℕ → ℕ → List ℕ
upto n zero = []
upto n (suc k) = n ∷ upto (suc n) k

pub no_place : (n : ℕ) → n ≡ n + 0
no_place n = omega arith

pub place : (n k : ℕ) → suc n + k ≡ n + suc k
place n k = omega arith

pub serial-append :
    (n : ℕ) (xs ys : List Op) (st : Store)
    → serial n (xs ++ ys) st ≡ serial n xs st ++ serial (n + length xs) ys (run xs st)
serial-append n [] ys st = ap (λ i. serial i ys st) (no_place n)
serial-append n (op ∷ xs) ys st =
    let st' = (handle op st).1 in
    ap (◌∷◌ (record { id = n; answer = (handle op st).0 })) (
      serial-append (suc n) xs ys st'
      ∙ ap (λ i. serial (suc n) xs st' ++ serial i ys (run xs st')) (place n (length xs)))

pub run-append : (xs ys : List Op) (st : Store) → run (xs ++ ys) st ≡ run ys (run xs st)
run-append [] ys st = refl
run-append (op ∷ xs) ys st = run-append xs ys (handle op st).1

pub length-serial : (n : ℕ) (xs : List Op) (st : Store) → length (serial n xs st) ≡ length xs
length-serial n [] st = refl
length-serial n (op ∷ xs) st = ap suc (length-serial (suc n) xs (handle op st).1)

pub number-append :
    (n : ℕ) (xs ys : List Op) → number n (xs ++ ys) ≡ number n xs ++ number (n + length xs) ys
number-append n [] ys = ap (λ i. number i ys) (no_place n)
number-append n (op ∷ xs) ys =
    ap (◌∷◌ (record { id = n; op = op })) (
      number-append (suc n) xs ys
      ∙ ap (λ i. number (suc n) xs ++ number i ys) (place n (length xs)))

pub upto-snoc : (n k : ℕ) → upto n (suc k) ≡ upto n k ++ (n + k) ∷ []
upto-snoc n zero = ap (λ i. i ∷ []) (no_place n)
upto-snoc n (suc k) =
    ap (◌∷◌ n) (upto-snoc (suc n) k ∙ ap (λ i. upto (suc n) k ++ i ∷ []) (place n k))

pub keep-upto : (i n k : ℕ) → i < n → keep (λ j. not (j == i)) (upto n k) ≡ upto n k
unfolding keep
keep-upto i n zero h = refl
keep-upto i n (suc k) h = ground (arith, keep-upto i (suc n) k, h)

-- The messages that are not about the start.
abbrev pub answers : List WorkerResponse → List WorkerResponse
answers ms = keep (λ m. not (m.id == 0)) ms

pub answers-append :
    (xs : List WorkerResponse) (m : WorkerResponse)
    → answers (xs ++ m ∷ []) ≡ answers xs ++ (if m.id == 0 then [] else m ∷ [])
unfolding keep
answers-append [] m = ground arith
answers-append (x ∷ xs) m = ground (arith, answers-append xs m)

abbrev pub first_or_zero : List WorkerResponse → ℕ
first_or_zero [] = 0
first_or_zero (q ∷ qs) = q.id

abbrev pub tail : {A : Type 0} → List A → List A
tail [] = []
tail (x ∷ xs) = xs

pub id-serial :
    (n : ℕ) (ops : List Op) (st : Store) (xs ys : List WorkerResponse) (m : WorkerResponse)
    → serial n ops st ≡ xs ++ m ∷ ys
    → m.id ≡ n + length xs
id-serial n [] st [] ys m e = absurd (ground arith)
id-serial n [] st (x ∷ xs) ys m e = absurd (ground arith)
id-serial n (op ∷ ops) st [] ys m e = sym (ap first_or_zero e) ∙ no_place n
id-serial n (op ∷ ops) st (x ∷ xs) ys m e =
    id-serial (suc n) ops (handle op st).1 xs ys m (ap tail e) ∙ place n (length xs)

pub ids-serial :
    (n : ℕ) (ops : List Op) (st : Store) (xs ys : List WorkerResponse)
    → serial n ops st ≡ xs ++ ys
    → map (λ m. m.id) ys ≡ upto (n + length xs) (length ys)
ids-serial n ops st [] ys e =
    ap (map (λ m. m.id)) (sym e)
    ∙ ids n ops st
    ∙ ap₂ upto (no_place n) (sym (length-serial n ops st) ∙ ap length e)
  where
    ids :
        (n : ℕ) (ops : List Op) (st : Store)
        → map (λ m. m.id) (serial n ops st) ≡ upto n (length ops)
    ids n [] st = refl
    ids n (op ∷ ops) st = ap (◌∷◌ n) (ids (suc n) ops (handle op st).1)
ids-serial n [] st (x ∷ xs) ys e = absurd (ground (arith, e))
ids-serial n (op ∷ ops) st (x ∷ xs) ys e =
    ids-serial (suc n) ops (handle op st).1 xs ys (ap tail e)
    ∙ ap (λ i. upto i (length ys)) (place n (length xs))

pub unsettled :
    (k : ℕ) (left : List Op) (st : Store) (rs : List WorkerResponse) (n : ℕ)
    → length rs ≡ k
    → k + length left ≡ length (rs ++ serial n left st)
unsettled k left st rs n h =
    omega (arith, h, length-append rs (serial n left st), length-serial n left st)

pub answers_notice :
    (m : WorkerResponse) (rest : List WorkerResponse)
    → (m.id == 0) ≡ true
    → answers (m ∷ rest) ≡ answers rest
unfolding keep
answers_notice m rest h = rw h refl

pub answers_answer :
    (m : WorkerResponse) (rest : List WorkerResponse)
    → (m.id == 0) ≡ false
    → answers (m ∷ rest) ≡ m ∷ answers rest
unfolding keep
answers_answer m rest h = rw h refl

pub one_more : (n : ℕ) → 1 + n ≡ suc n
one_more n = omega arith

pub one_left : (n k : ℕ) → suc n + k ≡ suc (n + k)
one_left n k = omega arith

pub settled_length :
    (l : List WorkerResponse) (m : WorkerResponse) → suc (length l) ≡ length (l ++ m ∷ [])
settled_length l m = omega (arith, length-append l (m ∷ []))

pub has-upto : (n k : ℕ) → has n (upto n (suc k)) ≡ true
unfolding has
has-upto n k = ground arith

pub keep-upto_first : (n k : ℕ) → keep (λ j. not (j == n)) (upto n (suc k)) ≡ upto (suc n) k
unfolding keep
keep-upto_first n k = ground (arith, keep-upto n (suc n) k)

abbrev pub first_request : Request → List Request → Request
first_request q [] = q
first_request q (r ∷ rs) = r

pub snoc_length : (l : List Op) (op : Op) → suc (length l) ≡ length (l ++ op ∷ [])
snoc_length l op = omega (arith, length-append l (op ∷ []))

pub nonzero : {k i : ℕ} → suc k ≡ i → (i == 0) ≡ false
nonzero h = ground (arith, h)

pub from_one : {k i : ℕ} → suc k ≡ i → 1 + k ≡ i
from_one h = omega (arith, h)
