-- ===== src/Cup/Documents/Thawed.antt =====
-- What `thaw_verified` vouches for: the judge reads no text whose hash differs, and no submission or
-- lead that its constructor would refuse.
use llm_evaluation_lab.Base.{true, false, ◌≡◌, List, [], ◌∷◌, All, str_eq, str_eq_iff}
use llm_evaluation_lab.Base.Result.{ok, Returns, value, after, after_require, Returns-ok}
use llm_evaluation_lab.Json.{bool, arr, nil, Fields, get, get_or}
use llm_evaluation_lab.Cup.Contracts.{
  Runtime, Lead, check_lead, Submission, check_submission, FrozenSubmission,
}
use llm_evaluation_lab.Cup.Documents.{
  text_of, bool_of, string_tuple, fields_of, list_of, int_of, number_of, objects_of, entrant_from,
  lead_from, leads_from, submission_from, thaw_verified,
}

abbrev IsLead : Lead → Type 0
IsLead l = check_lead l ≡ ok tt

module _ (rt : Runtime) where
  open rt use {sha256, loads}

  lead_from-Returns : (d : Fields) → Returns IsLead (lead_from rt d)
  unfolding lead_from
  lead_from-Returns d = after (number_of rt (get "confidence" d)) λ confidence _.
      after (text_of (get "company" d) "company") λ company _.
        after (text_of (get "role" d) "role") λ role _.
          after (text_of (get "source_url" d) "source_url") λ source_url _.
            after (bool_of (get "official_source" d) "official_source") λ official _.
              after (text_of (get "open_status" d) "open_status") λ open_status _.
                after (text_of (get "remote_scope" d) "remote_scope") λ remote_scope _.
                  after (text_of (get "location_constraint" d) "location_constraint") λ location _.
                    after (text_of (get "employment_type" d) "employment_type") λ employment _.
                      after
                        (string_tuple true (get_or "required_skills" d (arr nil)) "required_skills")
                        λ skills _. after (text_of (get "candidate_fit" d) "candidate_fit") λ fit _.
                          after
                            (string_tuple true (get_or "mismatch_risks" d (arr nil))
                              "mismatch_risks")
                            λ risks _.
                              after (text_of (get "portfolio_relevance" d) "portfolio_relevance")
                                λ relevance _.
                                  after (text_of (get "next_action" d) "next_action") λ action _.
                                    after
                                      (string_tuple false (get_or "evidence_urls" d (arr nil))
                                        "evidence_urls")
                                      λ urls _.
                                        after
                                          (bool_of (get_or "claimed_novel" d (bool false))
                                            "claimed_novel")
                                          λ novel _.
                                            after
                                              (check_lead (record {
                                                company = company;
                                                role = role;
                                                source_url = source_url;
                                                official_source = official;
                                                open_status = open_status;
                                                remote_scope = remote_scope;
                                                location_constraint = location;
                                                employment_type = employment;
                                                required_skills = skills;
                                                candidate_fit = fit;
                                                mismatch_risks = risks;
                                                portfolio_relevance = relevance;
                                                confidence = confidence;
                                                next_action = action;
                                                evidence_urls = urls;
                                                claimed_novel = novel;
                                              }))
                                              λ _ e. value e

  leads_from-Returns : (ds : List Fields) → Returns (All IsLead) (leads_from rt ds)
  unfolding leads_from
  leads_from-Returns [] = value tt
  leads_from-Returns (d ∷ ds) = after (lead_from rt d) λ one e1.
      after (leads_from rt ds) λ rest e2.
        value (Returns-ok (lead_from-Returns d) e1, Returns-ok (leads_from-Returns ds) e2)

  abbrev IsSubmission : Submission → Type 0
  IsSubmission s = (check_submission s ≡ ok tt) × All IsLead s.leads

  submission_from-Returns : (d : Fields) → Returns IsSubmission (submission_from rt d)
  unfolding submission_from
  submission_from-Returns d =
      after (fields_of "submission is missing entrant or leads" (get "entrant" d)) λ raw _.
        after (list_of "submission is missing entrant or leads" (get "leads" d)) λ raws _.
          after (objects_of raws) λ documents _.
            after (int_of "submission search_calls must be an integer" (get "search_calls" d))
              λ calls _. after (entrant_from rt raw) λ entrant _.
                after (text_of (get "candidate_fingerprint" d) "candidate_fingerprint") λ card _.
                  after (text_of (get "competition_fingerprint" d) "competition_fingerprint")
                    λ spec _. after (leads_from rt documents) λ leads e.
                      after
                        (string_tuple true (get_or "apply_now_urls" d (arr nil)) "apply_now_urls")
                        λ urls _.
                          after
                            (text_of (get "search_strategy_summary" d) "search_strategy_summary")
                            λ summary _.
                              after
                                (string_tuple true (get_or "rejected_or_downgraded" d (arr nil))
                                  "rejected_or_downgraded")
                                λ rejected _.
                                  after
                                    (string_tuple true (get_or "uncertainties" d (arr nil))
                                      "uncertainties")
                                    λ uncertainties _.
                                      after
                                        (check_submission (record {
                                          entrant = entrant;
                                          candidate_fingerprint = card;
                                          competition_fingerprint = spec;
                                          leads = leads;
                                          apply_now_urls = urls;
                                          search_strategy_summary = summary;
                                          rejected_or_downgraded = rejected;
                                          uncertainties = uncertainties;
                                          search_calls = calls;
                                        }))
                                        λ _ c.
                                          value (c, Returns-ok (leads_from-Returns documents) e)

  pub record IsThawed (frozen : FrozenSubmission) (s : Submission) : Type 0 where
    pub hashed : sha256 frozen.canonical_content ≡ frozen.sha256
    pub by : s.entrant.entrant_id ≡ frozen.entrant_id
    pub checked : check_submission s ≡ ok tt
    pub leads : All (λ (l : Lead). check_lead l ≡ ok tt) s.leads

  thaw_verified-Returns :
      (frozen : FrozenSubmission) → Returns (IsThawed frozen) (thaw_verified rt frozen)
  unfolding thaw_verified
  thaw_verified-Returns frozen =
      after_require (str_eq (sha256 frozen.canonical_content) frozen.sha256) _ _ λ hashed.
        after (loads frozen.canonical_content) λ loaded _.
          after (fields_of "frozen submission must contain an object" loaded) λ document _.
            after (submission_from rt document) λ s e.
              after_require (str_eq s.entrant.entrant_id frozen.entrant_id) _ _ λ by.
                let (checked, leads) = Returns-ok (submission_from-Returns document) e in
                value (record {
                  hashed = (str_eq_iff (sha256 frozen.canonical_content) frozen.sha256).0 hashed;
                  by = (str_eq_iff s.entrant.entrant_id frozen.entrant_id).0 by;
                  checked = checked;
                  leads = leads;
                })

  -- A submission that is thawed comes from a text with the recorded hash, names the recorded entrant,
  -- and passes the checks of its constructor, as every one of its leads does.
  pub thaw_verified-IsThawed :
      (frozen : FrozenSubmission) {s : Submission}
      → thaw_verified rt frozen ≡ ok s
      → IsThawed frozen s
  thaw_verified-IsThawed frozen h = Returns-ok (thaw_verified-Returns frozen) h
