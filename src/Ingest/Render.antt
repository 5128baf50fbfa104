-- ===== src/Ingest/Render.antt =====
-- packages/core/src/ingest-buffer.ts: buffered records and their rendering as one prompt.
use omp_bundler.Prelude.{
  List, [], ◌∷◌, ◌++◌, Bool, Option, none, some, ℕ, Text, codes, is_empty, map, if◌then◌else◌,
}
use omp_bundler.Contracts.{Speaker, WorkspaceAttachment}

pub record BufferedRecord : Type 0 where
  pub adapter_id : Text
  pub conversation_key : Text
  pub message_id : Text
  pub speaker : Speaker
  pub text : Text
  pub attachments : List WorkspaceAttachment
  pub addressed : Bool
  pub received_at : ℕ

-- `parts.join(separator)`
join : Text → List Text → Text
join separator [] = []
join separator (x ∷ []) = x
join separator (x ∷ y ∷ rest) = x ++ (separator ++ join separator (y ∷ rest))

-- ` [label: value]`, left out for a missing or an empty value, which are both falsy.
suffix : Text → Option Text → Text
suffix label none = []
suffix label (some value) =
    if is_empty value then [] else codes " [" ++ (label ++ (codes ": " ++ (value ++ codes "]")))

render_attachment : WorkspaceAttachment → Text
unfolding suffix
render_attachment a =
    codes "  - "
    ++ (a.path ++ (suffix (codes "name") a.name ++ suffix (codes "mediaType") a.media_type))

unfoldable pub render_record : BufferedRecord → Text
unfolding join render_attachment
render_record r =
    let head = r.speaker.display_name ++ (codes " (id: " ++ (r.speaker.id ++ codes ")")) in
    let attachments = map render_attachment r.attachments in
    join (10 ∷ []) (head ∷ (if is_empty r.text then attachments else r.text ∷ attachments))

unfoldable pub render_prompt : List BufferedRecord → Text
unfolding join render_record
render_prompt records = join (10 ∷ 10 ∷ []) (map render_record records)
