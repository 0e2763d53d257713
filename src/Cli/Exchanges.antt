-- ===== src/Cli/Exchanges.antt =====
-- What each kind of request of src/cli/cli.cpp sends.
use gr4_control_plane.Prelude.{String, ◌≡◌, refl, string_eq, nat_eq, none, some}
use gr4_control_plane.Errors.{Exception, ok, err, continue}
use gr4_control_plane.Cli.Url.{ParsedUrl}
use gr4_control_plane.Cli.Requests.{
  Json, Http, required, json_of, no_content_of, request_json, request_no_content, perform_request,
}

module _ (j : Json) (http : Http) (server : ParsedUrl) (path : String) (n : http.State) where
  pub request_json-get :
      request_json j http server "GET" path none n
      ≡ continue (required j http (http.get server path n)) (json_of j http)
  unfolding request_json perform_request string_eq
  request_json-get = refl

  pub request_json-post :
      request_json j http server "POST" path none n
      ≡ continue (required j http (http.post server path "" n)) (json_of j http)
  unfolding request_json perform_request string_eq
  request_json-post = refl

  pub request_json-post_body :
      (body : j.Value) (payload : String)
      → j.dump body ≡ ok payload
      → request_json j http server "POST" path (some body) n
        ≡ continue (required j http (http.post server path payload n)) (json_of j http)
  unfolding request_json perform_request string_eq
  request_json-post_body body payload e = rw e refl

  pub request_json-undumped :
      (body : j.Value) (e : Exception)
      → j.dump body ≡ err e
      → request_json j http server "POST" path (some body) n ≡ (err e, n)
  unfolding request_json perform_request string_eq
  request_json-undumped body x e = rw e refl

  pub request_no_content-delete :
      request_no_content j http server "DELETE" path n
      ≡ continue (required j http (http.delete server path n)) (no_content_of j http)
  unfolding request_no_content perform_request string_eq
  request_no_content-delete = refl
