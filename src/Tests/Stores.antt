-- ===== src/Tests/Stores.antt =====
-- The retries, the batched writes, the retention categories and the encryption at concrete inputs.
use baileys_session_manager.Base.{
  ℕ, zero, suc, ◌≡◌, ◌≤◌, ◌<◌, ◌⊎◌, refl, Bool, true, false, none, some, [], ◌∷◌, ◌++◌, map, length,
  All, Text, text, text_eq, starts_with, arith,
}
use baileys_session_manager.Base.Exec.{ok, error, Exec}
use baileys_session_manager.Base.Map.{lookup, insert}
use baileys_session_manager.Utils.Retry.{RetryOptions, with_retry}
use baileys_session_manager.Utils.Retry.Attempts.{
  Fails, delays, start_of, with_retry_succeeds, with_retry_gives_up, with_retry_waits,
}
use baileys_session_manager.Utils.WriteBatcher.{
  System, Running, Job, Reach, create, write, flush_now, start as start_job, flushed, failed, here,
  next, writes, timer_fires, starts, succeeds,
}
use baileys_session_manager.Utils.WriteBatcher.Values.{last_write_wins}
use baileys_session_manager.Utils.WriteBatcher.Promises.{count, failed_never_settles}
use baileys_session_manager.Retention.Categories.{Category, name, matches, resolve_category}
use baileys_session_manager.Retention.Resolution.{
  taken_for, resolve_category-name, resolve_category-longest,
}
use baileys_session_manager.Encryption.Aes.{Bytes, Crypto, Laws}

-- A call that fails while the state is positive, and counts it down.
abbrev flaky : Exec ℕ Text
flaky zero = (ok (text "done"), zero)
flaky (suc n) = (error (text "busy"), n)

abbrev idle : ℕ → ℕ → ℕ
idle ms n = n

abbrev options : RetryOptions
options = record { retries = some 2; min_delay_ms = none; max_delay_ms = some 300 }

first-Fails : (n : ℕ) → (i : ℕ) → i < 1 → Fails idle flaky 200 300 0 (suc n) i
unfolding start_of
first-Fails n zero h = (text "busy", refl)
first-Fails n (suc i) h = absurd (omega (arith, h))

with_retry_succeeds_example :
    ((with_retry idle flaky options 1).result ≡ ok (text "done"))
    × ((with_retry idle flaky options 1).state ≡ 0)
    × (map (λ w. w.delay) (with_retry idle flaky options 1).warnings
        ≡ delays idle flaky 200 300 0 1)
unfolding start_of
with_retry_succeeds_example =
    with_retry_succeeds idle flaky options 1 1 0 (text "done") (omega arith) (first-Fails 0) refl

all-Fails : (i : ℕ) → i < 2 → Fails idle flaky 200 300 0 9 i
unfolding start_of
all-Fails zero h = (text "busy", refl)
all-Fails (suc zero) h = (text "busy", refl)
all-Fails (suc (suc i)) h = absurd (omega (arith, h))

with_retry_gives_up_example :
    ((with_retry idle flaky options 9).result ≡ error (text "busy"))
    × ((with_retry idle flaky options 9).state ≡ 6)
    × (map (λ w. w.delay) (with_retry idle flaky options 9).warnings
        ≡ delays idle flaky 200 300 0 2)
unfolding start_of
with_retry_gives_up_example =
    with_retry_gives_up idle flaky options 9 6 (text "busy") all-Fails refl

with_retry_waits_example :
    (length (with_retry idle flaky options 9).warnings ≤ 2)
    × All (λ w. w.delay ≤ 300) (with_retry idle flaky options 9).warnings
with_retry_waits_example = with_retry_waits idle flaky options 9

abbrev key : Text
key = text "creds"

abbrev s0 : System
s0 = create 50 []

abbrev s1 : System
s1 = write key (text "a") s0

abbrev s2 : System
s2 = write key (text "b") s1

abbrev s3 : System
s3 = flush_now none s2

abbrev job : Job
job = record { waiters = 0 ∷ 1 ∷ []; caller = none }

abbrev running : Running
running = record { job = job; entries = (key, text "b") ∷ [] }

abbrev s4 : System
s4 = start_job job [] s3

flows : {failing : Bool} → Reach failing s0 s4
unfolding create write flush_now start_job insert text_eq
flows =
    next
      (next (next (next here (writes s0 key (text "a"))) (writes s1 key (text "b")))
        (timer_fires s2 refl))
      (starts s3 job [] refl refl (λ e. cc))

last_write_wins_example :
    lookup key (flushed running s4).stored ≡ lookup key (flushed running s4).intended
unfolding create write flush_now start_job insert text_eq flushed
last_write_wins_example =
    last_write_wins 50 [] (flushed running s4) key (next flows (succeeds s4 running refl)) refl refl

failed_never_settles_example :
    (count 0 (failed running s4).resolved ≡ 0) × (count 0 (failed running s4).rejected ≡ 0)
unfolding create write flush_now start_job insert text_eq count
failed_never_settles_example =
    failed_never_settles 50 [] s4 (failed running s4) running 0 flows refl (omega arith) here

resolve_category-name_example :
    resolve_category (name Category.session ++ (text "-" ++ text "1"))
    ≡ some (taken_for Category.session (text "1"))
resolve_category-name_example = resolve_category-name Category.session (text "1")

resolve_category-longest_example :
    (matches (text "sender-key-memory-1") Category.sender_key_memory ≡ true)
    × ((matches (text "sender-key-memory-1") Category.sender_key ≡ false)
        ⊎ (length (name Category.sender_key) ≤ length (name Category.sender_key_memory)))
unfolding resolve_category text_eq starts_with
resolve_category-longest_example =
    resolve_category-longest (text "sender-key-memory-1") Category.sender_key_memory
      Category.sender_key refl

-- Encodings that change nothing, and a cipher that hides nothing.
abbrev pub zeros : Bytes
zeros = 0 ∷ 0 ∷ 0 ∷ 0 ∷ 0 ∷ 0 ∷ 0 ∷ 0 ∷ 0 ∷ 0 ∷ 0 ∷ 0 ∷ 0 ∷ 0 ∷ 0 ∷ 0 ∷ []

abbrev pub plain : Crypto
plain = record {
  from_hex = λ t. t;
  from_base64 = λ t. t;
  to_base64 = λ b. b;
  from_utf8 = λ t. t;
  to_utf8 = λ b. b;
  seal = λ key iv bytes. (bytes, zeros);
  unseal = λ key iv tag bytes. ok bytes;
}

pub plain-Laws : Laws plain (λ t. Unit)
plain-Laws = record {
  from_base64-to_base64 = λ b. refl;
  to_utf8-from_utf8 = λ t i. refl;
  unseal-seal = λ key iv bytes. refl;
  length-tag = λ key iv bytes. refl;
}

abbrev pub key_input : Text
key_input = text "0123456789abcdef0123456789abcde="

abbrev pub iv : Bytes
iv = 1 ∷ 2 ∷ 3 ∷ 4 ∷ 5 ∷ 6 ∷ 7 ∷ 8 ∷ 9 ∷ 10 ∷ 11 ∷ 12 ∷ []

abbrev payload : Text
payload = text "enc:v1:" ++ (iv ++ (zeros ++ text "{}"))
