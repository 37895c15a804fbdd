-- ===== src/Tss/Queue.antt =====
-- The queue of messages to sign, the requests that came early, and the cache of signatures.
use sign_protocols.Prelude.{
  ℕ, ◌+◌, ◌*◌, String, Option, none, some, List, [], ◌∷◌, ◌++◌, Bool, not, ◌||◌, leb, keep_if,
  head?, if◌then◌else◌, ◌==◌,
}
use sign_protocols.Prelude.Maps.{lookup, erase}
use sign_protocols.Tss.State.{Sign, PendingSign, SignResult, Tss}

abbrev pub has_msg : String → Sign → Bool
has_msg msg sign = sign.msg == msg

abbrev when_open : Bool → Option Sign → Option Sign
when_open search_posted none = none
when_open search_posted (some sign) = if not sign.posted || search_posted then some sign else none

unfoldable pub get_sign : String → Bool → Tss → Option Sign
get_sign msg search_posted s = when_open search_posted (head? (keep_if (has_msg msg) s.signs))

-- An assignment to fields of the object that `getSign` returns: the first one with the message.
unfoldable pub update_first : String → (Sign → Sign) → List Sign → List Sign
update_first msg f [] = []
update_first msg f (x ∷ xs) =
    let rest = update_first msg f xs in if has_msg msg x then f x ∷ xs else x ∷ rest

abbrev pub update_sign : String → (Sign → Sign) → Tss → Tss
update_sign msg f s = record s { signs = update_first msg f s.signs }

unfoldable pub remove_sign : String → Tss → Tss
remove_sign msg s = record s { signs = keep_if (λ sign. not (has_msg msg sign)) s.signs }

unfoldable pub get_pending_sign : String → Tss → Option PendingSign
get_pending_sign msg s = head? (keep_if (λ pending. pending.msg == msg) s.pending_signs)

unfoldable pub update_first_pending :
    String → (PendingSign → PendingSign) → List PendingSign → List PendingSign
update_first_pending msg f [] = []
update_first_pending msg f (x ∷ xs) =
    let rest = update_first_pending msg f xs in if x.msg == msg then f x ∷ xs else x ∷ rest

abbrev cache_new : ℕ → String → SignResult → Option SignResult → Tss → Tss
cache_new now message result (some old) s = s
cache_new now message result none s = record s {
  sign_cache = (message, result) ∷ s.sign_cache;
  cache_timers = s.cache_timers ++ (now + s.sign_cache_ttl_seconds * 1000, message) ∷ [];
}

unfoldable pub add_sign_to_cache : ℕ → String → SignResult → Tss → Tss
add_sign_to_cache now message result s =
    cache_new now message result (lookup message s.sign_cache) s

-- The timers whose time has come: each deletes its message from the cache.
unfoldable pub run_timers :
    ℕ → List (ℕ × String) → List (String × SignResult) → List (String × SignResult)
unfolding erase
run_timers now [] cache = cache
run_timers now ((due, message) ∷ timers) cache =
    run_timers now timers (if leb due now then erase message cache else cache)

abbrev is_ahead : ℕ → ℕ × String → Bool
is_ahead now (due, message) = not (leb due now)

unfoldable pub expire_cache : ℕ → Tss → Tss
unfolding run_timers
expire_cache now s = record s {
  sign_cache = run_timers now s.cache_timers s.sign_cache;
  cache_timers = keep_if (is_ahead now) s.cache_timers;
}

abbrev pub call_back : ℕ → Bool → Option String → Option String → Option String → Tss → Tss
call_back callback status message signature recovery s = record s {
  calls =
      s.calls
      ++ record {
        callback = callback;
        status = status;
        message = message;
        signature = signature;
        signature_recovery = recovery;
      }
        ∷ [];
}
