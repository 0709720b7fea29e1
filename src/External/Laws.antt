-- ===== src/External/Laws.antt =====
-- src/external.rs: what a verified object is.
use hhm_api_server_rs.Common.{
  ℕ, ◌+◌, ◌≤◌, ◌≡◌, codes, not, refl, sym, ap, ◌∙◌, false, Option, none, some, List, [], ◌∷◌, ◌++◌,
  map, Text, Text-Eq, length, length-append, append_assoc, append_nil, joined, ltb, nat_eq_iff,
  arith, ◌==◌, text_eq_iff,
}
use hhm_api_server_rs.Common.Result.{ok, and_then-eq-ok, ok_or, ok_or-eq-ok, else-eq-ok}
use hhm_api_server_rs.Hex.{lower_hex}
use hhm_api_server_rs.Http.{Url, Response, Outside}
use hhm_api_server_rs.Persistence.Uploads.{PendingUpload}
use hhm_api_server_rs.External.{
  max_upload_bytes, object_mismatch, stream_object, check_object, verify_download, verify_object,
  mime_type, storage_base, join_base, validate_object_key, unavailable, invalid_response,
}

module _ (expected : PendingUpload) where
  -- A stream that was read to its end: every chunk arrived, the bytes are those of the chunks in
  -- their order, and the size is their number.
  pub stream_object-eq-ok :
      (seen : List ℕ) (chunks : List (Option (List ℕ))) {size : ℕ} {bytes : List ℕ}
      → stream_object expected (length seen) seen chunks ≡ ok (size, bytes)
      → (read : List (List ℕ)) × (chunks ≡ map some read)
        × (bytes ≡ seen ++ joined read)
        × (size ≡ length bytes)
  unfolding stream_object
  stream_object-eq-ok seen [] {size} {bytes} h =
      let is : seen ≡ bytes = ground (arith, h) in
      let counted : length seen ≡ size = ground (arith, h) in
      ([], refl, sym is ∙ sym (append_nil seen), sym counted ∙ ap (λ (l : List ℕ). length l) is)
  stream_object-eq-ok seen (none ∷ chunks) h = ground arith
  stream_object-eq-ok seen (some chunk ∷ chunks) {size} {bytes} h =
      let rest : stream_object expected (length seen + length chunk) (seen ++ chunk) chunks
          ≡ ok (size, bytes) =
        ground (arith, h) in
      let (read, all_read, is, counted) =
        stream_object-eq-ok (seen ++ chunk) chunks (rw (length-append seen chunk) rest) in
      (
        chunk ∷ read,
        ap (λ (l : List (Option (List ℕ))). some chunk ∷ l) all_read,
        is ∙ append_assoc seen chunk (joined read),
        counted,
      )

module _ (outside : Outside) (project_url : Url) (expected : PendingUpload) where
  -- The downloaded object is the one that was promised: it has the promised media type, its bytes
  -- are the chunks in their order, as many as promised, and their SHA-256 is the promised digest.
  pub record IsPromised (response : Response) : Type 0 where
    pub read : List (List ℕ)
    pub arrived : response.chunks ≡ map some read
    pub typed : mime_type response.content_type ≡ some expected.content_type
    pub sized : length (joined read) ≡ expected.size_bytes
    pub digested : lower_hex (outside.sha256 (joined read)) ≡ expected.expected_sha256

  same_text : (a b : Text) → not (a == b) ≡ false → a ≡ b
  same_text a b h = ground (arith, text_eq_iff a b)

  check_object-eq-ok :
      (size : ℕ) (bytes : List ℕ)
      → check_object outside project_url expected (size, bytes) ≡ ok tt
      → (size ≡ expected.size_bytes) × (lower_hex (outside.sha256 bytes) ≡ expected.expected_sha256)
  check_object-eq-ok size bytes h = ground (
    arith,
    nat_eq_iff size expected.size_bytes,
    text_eq_iff (lower_hex (outside.sha256 bytes)) expected.expected_sha256,
  )

  promised :
      (response : Response)
      → mime_type response.content_type ≡ some expected.content_type
      → (end : ℕ × List ℕ) → stream_object expected 0 [] response.chunks ≡ ok end
      → check_object outside project_url expected end ≡ ok tt
      → IsPromised response
  promised response typed (size, bytes) streamed checked =
      let (read, arrived, is, counted) =
        stream_object-eq-ok expected [] response.chunks {size = size} {bytes = bytes} streamed in
      let (sized, digested) = check_object-eq-ok size bytes checked in
      record {
        read = read;
        arrived = arrived;
        typed = typed;
        sized = ap (λ (l : List ℕ). length l) (sym is) ∙ sym counted ∙ sized;
        digested = ap (λ l. lower_hex (outside.sha256 l)) (sym is) ∙ digested;
      }

  verify_download-eq-ok :
      (response : Response)
      → verify_download outside project_url expected response ≡ ok tt
      → IsPromised response
  unfolding verify_download
  verify_download-eq-ok response h =
      let (_, h1) = else-eq-ok _ object_mismatch _ h in
      let (content_type, typed, h2) =
        and_then-eq-ok (ok_or object_mismatch (mime_type response.content_type)) _ h1 in
      let (same, h3) = else-eq-ok _ object_mismatch _ h2 in
      let (_, h4) = else-eq-ok _ object_mismatch _ h3 in
      let (end, streamed, h5) = and_then-eq-ok (stream_object expected 0 [] response.chunks) _ h4 in
      let found = ok_or-eq-ok object_mismatch (mime_type response.content_type) typed in
      promised response (found ∙ ap some (same_text content_type expected.content_type same)) end
        streamed h5

  -- A verified object has a well-formed key and a promised size within the limit, and the download
  -- at the address that the key names is the promised one.
  pub verify_object-eq-ok :
      verify_object outside project_url expected ≡ ok tt
      → (validate_object_key expected.object_key ≡ ok tt)
        × (expected.size_bytes ≤ max_upload_bytes)
        × ((base : Url) × (endpoint : Url) × (response : Response) × (outside.join_url project_url
                (codes "storage/v1/")
              ≡ some base)
            × (outside.join_url base
                  (codes "object/authenticated/hhm-intake-private/" ++ expected.object_key)
                ≡ some endpoint)
            × (outside.download endpoint ≡ some response)
            × IsPromised response)
  unfolding verify_object
  verify_object-eq-ok h =
      let (_, valid, h1) = and_then-eq-ok (validate_object_key expected.object_key) _ h in
      let (small, h2) =
        else-eq-ok (ltb max_upload_bytes expected.size_bytes) object_mismatch _ h1 in
      let (base, based, h3) = and_then-eq-ok (storage_base outside project_url) _ h2 in
      let (endpoint, joined_at, h4) =
        and_then-eq-ok
          (join_base outside project_url base
            (codes "object/authenticated/hhm-intake-private/" ++ expected.object_key))
          _ h3 in
      let (response, downloaded, h5) =
        and_then-eq-ok (ok_or unavailable (outside.download endpoint))
          (verify_download outside project_url expected) h4 in
      (
        valid,
        ground (arith, small),
        (
          base,
          endpoint,
          response,
          ok_or-eq-ok invalid_response (outside.join_url project_url (codes "storage/v1/")) based,
          ok_or-eq-ok invalid_response (outside.join_url base _) joined_at,
          ok_or-eq-ok unavailable (outside.download endpoint) downloaded,
          verify_download-eq-ok response h5,
        ),
      )
