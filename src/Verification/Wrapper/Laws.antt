-- ===== src/Verification/Wrapper/Laws.antt =====
-- What a caller of the wrappers can rely on.
use trustflow.Base.{
  ℕ, zero, suc, ◌+◌, ◌-◌, ◌<◌, ◌≤◌, ◌≡◌, ◌≢◌, ◌↔◌, refl, arith, lt→ltb, some, Bytes, Str, [], ◌∷◌,
  ◌++◌, length, take, drop, replicate, length-append, length-take, length-drop, length-replicate,
  ap,
}
use trustflow.Error.{
  Result, ok, throw, undefined, Exception, argument_error, invalid_format, yacl_exception,
  std_exception,
}
use trustflow.External.{External}
use trustflow.Verification.Wrapper.{
  Status, Texts, Backend, handle, catch_status, run_verify, attestation_report_verify, strncpy,
  strlen, clear_at, terminate, Outcome, written, after_try, finish,
}

handle-code : (T : Texts) (x : Exception) → 0 < (handle T x).code
unfolding handle
handle-code T (argument_error m) = omega arith
handle-code T (invalid_format m) = omega arith
handle-code T (yacl_exception m) = omega arith
handle-code T (std_exception m) = omega arith

catch_status-code :
    (T : Texts) (r : Result (Unit {0})) (s : Status)
    → catch_status T r ≡ some s
    → (s.code ≡ 0) ↔ (r ≡ ok tt)
unfolding catch_status
catch_status-code T (ok tt) s h = (λ _. refl, λ _. ground arith)
catch_status-code T (throw x) s h =
    let code : 0 < (handle T x).code = handle-code T x in
    let same : some (handle T x) ≡ some s = h in (λ z. ground arith, λ e. cc)
catch_status-code T undefined s h = cc

-- The length of the text, and so where its terminator is.
strlen-clear_at :
    (buf : Bytes) (i : ℕ) → i < length buf → (n : ℕ) × (strlen (clear_at buf i) ≡ ok n) × (n ≤ i)
unfolding strlen clear_at
strlen-clear_at [] i h = absurd (omega arith)
strlen-clear_at (b ∷ bs) zero h = (0, refl, omega arith)
strlen-clear_at (zero ∷ bs) (suc i) h = (0, refl, omega arith)
strlen-clear_at (suc b ∷ bs) (suc i) h =
    let (n, e, le) = strlen-clear_at bs i (omega arith) in (suc n, rw e, omega arith)

length-clear_at : (buf : Bytes) (i : ℕ) → length (clear_at buf i) ≡ length buf
unfolding clear_at
length-clear_at [] i = refl
length-clear_at (b ∷ bs) zero = refl
length-clear_at (b ∷ bs) (suc i) = ap suc (length-clear_at bs i)

-- A C string in a buffer of `size` bytes, with the length that counts its terminator.
abbrev pub IsText : ℕ → Bytes × ℕ → Type 0
IsText size b = (length b.0 ≡ size) × (n : ℕ) × (strlen b.0 ≡ ok n) × (b.1 ≡ n + 1) × (b.1 ≤ size)

terminated :
    (buf : Bytes)
    → 0 < length buf
    → (b : Bytes × ℕ) × (terminate buf (length buf) ≡ ok b) × IsText (length buf) b
unfolding terminate
terminated buf h =
    let (n, e, le) = strlen-clear_at buf (length buf - 1) (omega arith) in
    (
      (clear_at buf (length buf - 1), n + 1),
      rw (lt→ltb 0 (length buf) h, e),
      (length-clear_at buf _, n, e, refl, omega arith),
    )

length-strncpy : (buf : Bytes) (s : Str) → length (strncpy buf s (length buf)) ≡ length buf
unfolding strncpy
length-strncpy buf s =
    let text = s ++ replicate (length buf - length s) 0 in
    omega (
      arith,
      length-append (take (length buf) text) (drop (length buf) buf),
      length-take (length buf) text,
      length-drop (length buf) buf,
      length-append s (replicate (length buf - length s) 0),
      length-replicate {A = ℕ} (length buf - length s) 0,
    )

-- The buffers keep their sizes, and the code is 0 exactly on success.
abbrev Kept : {A : Type 0} → Result A → Bytes → Bytes → ℕ × Bytes × Bytes → Type 0
Kept {A} body msg details w =
    (length w.1 ≡ length msg)
    × (length w.2 ≡ length details)
    × ((w.0 ≡ 0) ↔ ((a : A) × (body ≡ ok a)))

written-sizes :
    (T : Texts) (x : Exception) (msg details : Bytes)
    → (0 < (written T x (msg, length msg) (details, length details)).0)
      × (length (written T x (msg, length msg) (details, length details)).1 ≡ length msg)
      × (length (written T x (msg, length msg) (details, length details)).2 ≡ length details)
unfolding written
written-sizes T (argument_error m) msg details =
    (omega arith, length-strncpy msg _, length-strncpy details _)
written-sizes T (invalid_format m) msg details =
    (omega arith, length-strncpy msg _, length-strncpy details _)
written-sizes T (yacl_exception m) msg details =
    (omega arith, length-strncpy msg _, length-strncpy details _)
written-sizes T (std_exception m) msg details = (omega arith, length-strncpy msg _, refl)

after_try-Kept :
    {A : Type 0} (T : Texts) (body : Result A) (msg details : Bytes)
    → body ≢ undefined
    → (w : ℕ × Bytes × Bytes) × (after_try T body (msg, length msg) (details, length details)
        ≡ ok w)
      × Kept body msg details w
unfolding after_try
after_try-Kept T (ok a) msg details d =
    ((0, msg, details), refl, (refl, refl, (λ _. (a, refl), λ _. refl)))
after_try-Kept T (throw x) msg details d =
    let (code, m, n) = written-sizes T x msg details in
    (
      written T x (msg, length msg) (details, length details),
      refl,
      (m, n, (λ z. absurd (omega (arith, code)), λ (a, e). cc)),
    )
after_try-Kept T undefined msg details d = absurd (d refl)

-- A function of the C API whose `try` block is not undefined, called with two non-empty buffers of the sizes
-- that it is told, returns, leaves in both a C string that ends inside the buffer together with its
-- length, and its code is 0 if and only if the block did not throw.
pub finish_returns :
    {A : Type 0} (T : Texts) (body : Result A) (msg details : Bytes)
    → body ≢ undefined
    → 0 < length msg
    → 0 < length details
    → (o : Outcome) × (finish T body (msg, length msg) (details, length details) ≡ ok o)
      × IsText (length msg) o.msg
      × IsText (length details) o.details
      × ((o.code ≡ 0) ↔ ((a : A) × (body ≡ ok a)))
unfolding finish
finish_returns T body msg details d hm hd =
    let (w, e, (m, n, code)) = after_try-Kept T body msg details d in
    let (b1, e1, t1) = terminated w.1 (omega (arith, m)) in
    let (b2, e2, t2) = terminated w.2 (omega (arith, n)) in
    (
      record { code = w.0; msg = b1; details = b2 },
      rw (e, ← m, ← n, e1, e2),
      rw (← m) t1,
      rw (← n) t2,
      code,
    )

-- The code of the status is 0 if and only if the report was verified.
pub attestation_report_verify-code :
    (X : External) (T : Texts) (B : Backend) (report policy : Str) (s : Status)
    → attestation_report_verify X T B report policy ≡ some s
    → (s.code ≡ 0) ↔ (run_verify X T B report policy ≡ ok tt)
unfolding attestation_report_verify
attestation_report_verify-code X T B report policy s h =
    catch_status-code T (run_verify X T B report policy) s h
