-- ===== src/Nip46/Signer/Errors.antt =====
-- src/nip46/signer.rs: what `response_to_result` makes of a response.
use narwal_publisher.Prelude.{text, text_eq, length, ltb, [], ◌∷◌}
use narwal_publisher.Prelude.{
  ◌≡◌, ◌↔◌, refl, false, Option, none, some, Text, Result, ok, err, ◌>>=◌, arith, if◌then◌else◌,
}
use narwal_publisher.Nip46.Signer.{
  Message, request, response, Method, ResponseResult, Response, RpcError, bunker_failed,
  bad_response, has_error, is_auth, check_error, or_rpc_error, ok_result, response_to_result,
}

-- the error that the signer reports: one that is not empty, in a response whose result is not
-- auth_url
abbrev given_error : Option Text → Option Text
given_error none = none
given_error (some e) = if ltb 0 (length e) then some e else none

abbrev pub reported : Message → Option Text
reported (request id) = none
reported (response id none error) = given_error error
reported (response id (some result) error) =
    if text_eq result (text "auth_url") then none else given_error error

-- the parsed response holds the result and nothing else
abbrev pub Holds : Response → ResponseResult → Type 0
Holds res r = (res.is_auth_url ≡ false) × (res.error ≡ none) × (res.result ≡ some r)

ok_result_iff : (res : Response) (r : ResponseResult) → (ok_result res ≡ ok r) ↔ Holds res r
unfolding ok_result or_rpc_error
ok_result_iff res r = ground arith

abbrev pub of_report : Option Text → Result RpcError (Unit {0})
of_report none = ok tt
of_report (some e) = err (bunker_failed e)

check_error-eq-report : (msg : Message) → check_error msg ≡ of_report (reported msg)
unfolding check_error is_auth has_error
check_error-eq-report (request id) = refl
check_error-eq-report (response id none none) = refl
check_error-eq-report (response id none (some [])) = refl
check_error-eq-report (response id none (some (c ∷ cs))) = ground arith
check_error-eq-report (response id (some result) none) = ground arith
check_error-eq-report (response id (some result) (some [])) = ground arith
check_error-eq-report (response id (some result) (some (c ∷ cs))) = ground arith

abbrev of_parse : Option Response → Result RpcError ResponseResult
of_parse o = do res ← or_rpc_error o bad_response; ok_result res

-- what a report and a parsed response make together
abbrev Decides : Option Text → Option Response → ResponseResult → Text → Type 0
Decides report o r e =
    (((of_report report >>= λ _. of_parse o) ≡ ok r)
      ↔ ((report ≡ none) × ((res : Response) × (o ≡ some res) × Holds res r)))
    × (report ≡ some e → (of_report report >>= λ _. of_parse o) ≡ err (bunker_failed e))

decides :
    (report : Option Text) (o : Option Response) (r : ResponseResult) (e : Text)
    → Decides report o r e
unfolding or_rpc_error
decides (some d) o r e = ((λ h. cc, λ h. cc (h.0)), λ h. cc)
decides none none r e = ((λ h. cc, λ h. cc (h.1.1)), λ h. cc)
decides none (some res) r e = (
  (
    λ h. (refl, (res, refl, (ok_result_iff res r).0 h)),
    λ h. ground (arith, ok_result_iff res r, h),
  ),
  λ h. cc,
)

module _ (to_response : Message → Method → Option Response) where
  -- A response gives a result exactly if it reports no error and parses to that result, with
  -- neither an approval request nor an error. It reports the error that it carries where this is
  -- not empty and its result is not auth_url. A reported error is returned whatever the rest of the
  -- response parses to.
  pub response_to_result_iff :
      (msg : Message) (method : Method) (r : ResponseResult) (e : Text)
      → ((response_to_result to_response msg method ≡ ok r) ↔ (
          (reported msg ≡ none)
          × ((res : Response) × (to_response msg method ≡ some res) × Holds res r)))
        × (reported msg ≡ some e
            → response_to_result to_response msg method ≡ err (bunker_failed e))
  unfolding response_to_result
  response_to_result_iff msg method r e =
      rw (check_error-eq-report msg) (decides (reported msg) (to_response msg method) r e)
