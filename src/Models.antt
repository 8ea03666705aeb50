-- ===== src/Models.antt =====
-- core/models.py: the rows of the tables. A time is a count of microseconds.
use whatfrom.Prelude.{ℕ, Bool, Option, List}
use whatfrom.Prelude.Eq.{Text}

pub record Repository : Type 0 where
  pub name : Text
  pub is_official : Bool
  pub description : Option Text
  pub source_url : Text
  pub collected_at : ℕ

-- A row of image_variants stands with its tag, in place of its `id` and `tag_id`.
pub record ImageVariant : Type 0 where
  pub os : Text
  pub architecture : Text
  pub arch_variant : Text
  pub os_version : Text
  pub digest : Text
  pub size_bytes : ℕ

pub record ImageTag : Type 0 where
  pub id : ℕ
  pub repository : Text
  pub tag : Text
  pub manifest_digest : Option Text
  pub last_pushed_at : Option ℕ
  pub collected_at : ℕ
  pub language_version : Option Text
  pub version_major_minor : Option Text
  pub distribution : Option Text
  pub distro_codename : Option Text
  pub variant : Option Text
  pub variants : List ImageVariant

pub record CollectionRun : Type 0 where
  pub id : ℕ
  pub repository : Text
  pub started_at : ℕ
  pub finished_at : Option ℕ
  pub stop_reason : Option Text
  pub pages : ℕ
  pub tags_seen : ℕ
  pub tags_written : ℕ
  pub error : Option Text

pub record Document : Type 0 where
  pub id : ℕ
  pub repository : Text
  pub doc_type : Text
  pub section_title : Text
  pub content : Text
  pub source_url : Text
  pub collected_at : ℕ

pub record DocumentChunk (Vector : Type 0) : Type 0 where
  pub id : ℕ
  pub document_id : ℕ
  pub chunk_index : ℕ
  pub content : Text
  pub embedding : Option Vector
