-- ===== src/Verification/Wrapper/Output.antt =====
-- What the output buffer of a function of the C API holds afterwards.
use trustflow.Base.{
  ℕ, ◌<◌, ◌≤◌, ◌≡◌, ◌≢◌, refl, arith, leb→le, Bytes, Str, ◌++◌, length, drop, length-append,
  length-drop, ap,
}
use trustflow.Error.{Result, ok, throw, undefined, with_value}
use trustflow.External.{External}
use trustflow.Attestation.{pb2json}
use trustflow.Verification.Attributes.{no_attributes}
use trustflow.Verification.Factory.{create}
use trustflow.Verification.Wrapper.{
  Texts, Backend, Outcome, create_factory, run_parse, copied, finish_with,
  parse_attributes_from_report,
}
use trustflow.Verification.Wrapper.Laws.{finish_returns}

-- On success the buffer begins with the text and has its length; otherwise nothing has changed.
abbrev pub IsOutput : Result Str → Bytes → Outcome × (Bytes × ℕ) → Type 0
IsOutput body buf r =
    (r.0.code ≡ 0
      → (json : Str) × (body ≡ ok json)
        × (r.1 ≡ (json ++ drop (length json) buf, length json))
        × (r.1.1 ≤ length buf)
        × (length r.1.0 ≡ length buf))
    × (r.0.code ≢ 0 → r.1 ≡ (buf, length buf))

Output_success :
    (body : Result Str) (buf : Bytes) (json : Str)
    → body ≡ ok json
    → length json ≤ length buf
    → (json' : Str) × (body ≡ ok json')
      × (copied body (buf, length buf) ≡ (json' ++ drop (length json') buf, length json'))
      × ((copied body (buf, length buf)).1 ≤ length buf)
      × (length (copied body (buf, length buf)).0 ≡ length buf)
unfolding copied
Output_success body buf json e fits = (
  json,
  e,
  rw e,
  rw e fits,
  rw e (omega (arith, length-append json (drop (length json) buf), length-drop (length json) buf)),
)

Output_failure :
    (body : Result Str) (buf : Bytes)
    → ((json : Str) → body ≢ ok json)
    → copied body (buf, length buf) ≡ (buf, length buf)
unfolding copied
Output_failure (ok json) buf none_ok = absurd (none_ok json refl)
Output_failure (throw x) buf none_ok = refl
Output_failure undefined buf none_ok = refl

pub finish_with-IsOutput :
    (T : Texts) (body : Result Str) (buf msg details : Bytes)
    → body ≢ undefined
    → ((json : Str) → body ≡ ok json → length json ≤ length buf)
    → 0 < length msg
    → 0 < length details
    → (r : Outcome × (Bytes × ℕ)) × (finish_with T body
          (buf, length buf)
          (msg, length msg)
          (details, length details)
        ≡ ok r)
      × IsOutput body buf r
unfolding finish_with
finish_with-IsOutput T body buf msg details d fits hm hd =
    let (o, e, m, n, code) = finish_returns T body msg details d hm hd in
    (
      (o, copied body (buf, length buf)),
      rw e,
      (
        λ z. let (json, j) = code.0 z in Output_success body buf json j (fits json j),
        λ z. Output_failure body buf λ json j. z (code.1 (json, j)),
      ),
    )

run_parse_fits :
    (X : External) (T : Texts) (B : Backend) (report : Str) (n : ℕ) (json : Str)
    → run_parse X T B report n ≡ ok json
    → length json ≤ n
unfolding run_parse
run_parse_fits X T B report n json h =
    with_value (create X B.report_of_json (create_factory B) report) (λ x e. ground arith)
      (λ e. ground arith)
      λ verifier e1.
        with_value (verifier.parse_unified_report no_attributes) (λ x e. ground arith)
          (λ e. ground arith)
          λ attrs e2.
            with_value (pb2json B.attributes_to_json attrs) (λ x e. ground arith)
              (λ e. ground arith)
              λ attrs_json e3.
                let le : length attrs_json ≤ n = leb→le (length attrs_json) n (ground arith) in
                let same : attrs_json ≡ json = ground arith in omega (arith, ap length same)

-- With buffers of the sizes that it is told, those of texts not empty, the function returns unless its `try` block is undefined;
-- if the code is 0, the attributes' JSON is at the start of the buffer, which it fits, and the length given is that of
-- the JSON without a terminator, whatever the note of the header says of lengths; if not, that buffer and its length
-- are as before.
pub parse_attributes_from_report-IsOutput :
    (X : External) (T : Texts) (B : Backend) (report : Str) (buf msg details : Bytes)
    → run_parse X T B report (length buf) ≢ undefined
    → 0 < length msg
    → 0 < length details
    → (r : Outcome × (Bytes × ℕ)) × (parse_attributes_from_report X T B report
          (buf, length buf)
          (msg, length msg)
          (details, length details)
        ≡ ok r)
      × IsOutput (run_parse X T B report (length buf)) buf r
unfolding parse_attributes_from_report
parse_attributes_from_report-IsOutput X T B report buf msg details d hm hd =
    finish_with-IsOutput T (run_parse X T B report (length buf)) buf msg details d
      (run_parse_fits X T B report (length buf)) hm hd
