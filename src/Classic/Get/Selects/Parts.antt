-- ===== src/Classic/Get/Selects/Parts.antt =====
-- plugins/format/classic/classic-get.c: the parts of a message are read by SELECT.
use librequiemdb.Base.{ℕ, zero, suc, ◌+◌, Option, none, some, Bytes, refl}
use librequiemdb.Error.{Result, ok, err}
use librequiemdb.Field.{field_to_uint32}
use librequiemdb.Message.{FileAccess, Service}
use librequiemdb.Reading.{Reading}
use librequiemdb.Reading.Selects.{
  Selects, bind-Selects, lift-Selects, one-Selects, many-Selects, many_indexed-Selects,
  many_then-Selects, asked-Selects, kept-Selects, found-Selects,
}
use librequiemdb.Classic.Get.Common.{Outside}
use librequiemdb.Classic.Get.Selects.Fields.{field_rules}
use librequiemdb.Classic.Get.Node.{
  get_user_id, get_user, get_process_arg, get_process_env, get_process, get_address, get_node,
}
use librequiemdb.Classic.Get.Service.{
  get_web_service_arg, get_web_service, get_snmp_service, get_service, found_anyway,
}
use librequiemdb.Classic.Get.File.{
  get_file_access_permission, get_linkage, get_inode, get_checksum, file_access_at, file_accesses,
  counted, count_of, get_file_access, get_file, file_parts,
}
use librequiemdb.Classic.Get.Source.{
  get_analyzer, get_source, get_target, source_parts, target_parts,
}
use librequiemdb.Classic.Get.Detail.{}

module _ (Res Row : Type 0) (o : Outside) where
  pub get_user_id-Selects :
      (m t i j k : ℕ) → Selects {Res = Res} {Row = Row} (get_user_id o m t i j k)
  unfolding get_user_id Selects
  get_user_id-Selects m t i j k =
      many-Selects _ _ _ (_, refl) λ res row. search (bind-Selects, field_rules) depth 40 fits 2000

  pub get_user-Selects : (m t i : ℕ) → Selects {Res = Res} {Row = Row} (get_user o m t i)
  unfolding get_user Selects
  get_user-Selects m t i =
      one-Selects _ _ (_, refl)
        λ res row. search (bind-Selects, field_rules, get_user_id-Selects) depth 40 fits 2000

  pub get_process_arg-Selects :
      (m t i : ℕ) → Selects {Res = Res} {Row = Row} (get_process_arg o m t i)
  unfolding get_process_arg Selects
  get_process_arg-Selects m t i =
      many-Selects _ _ _ (_, refl) λ res row. search (field_rules) depth 40 fits 2000

  pub get_process_env-Selects :
      (m t i : ℕ) → Selects {Res = Res} {Row = Row} (get_process_env o m t i)
  unfolding get_process_env Selects
  get_process_env-Selects m t i =
      many-Selects _ _ _ (_, refl) λ res row. search (field_rules) depth 40 fits 2000

  pub get_process-Selects : (m t i : ℕ) → Selects {Res = Res} {Row = Row} (get_process o m t i)
  unfolding get_process Selects
  get_process-Selects m t i =
      one-Selects _ _ (_, refl)
        λ res row.
          search (bind-Selects, field_rules, get_process_arg-Selects, get_process_env-Selects) depth
            40 fits 2000

  pub get_address-Selects : (m t i : ℕ) → Selects {Res = Res} {Row = Row} (get_address o m t i)
  unfolding get_address Selects
  get_address-Selects m t i =
      many-Selects _ _ _ (_, refl) λ res row. search (bind-Selects, field_rules) depth 40 fits 2000

  pub get_node-Selects : (m t i : ℕ) → Selects {Res = Res} {Row = Row} (get_node o m t i)
  unfolding get_node Selects
  get_node-Selects m t i =
      one-Selects _ _ (_, refl)
        λ res row. search (bind-Selects, field_rules, get_address-Selects) depth 40 fits 2000

  pub get_web_service_arg-Selects :
      (m t i : ℕ) → Selects {Res = Res} {Row = Row} (get_web_service_arg o m t i)
  unfolding get_web_service_arg Selects
  get_web_service_arg-Selects m t i =
      many-Selects _ _ _ (_, refl) λ res row. search (field_rules) depth 40 fits 2000

  pub get_web_service-Selects :
      (m t i : ℕ) → Selects {Res = Res} {Row = Row} (get_web_service o m t i)
  unfolding get_web_service Selects
  get_web_service-Selects m t i =
      one-Selects _ _ (_, refl)
        λ res row.
          search (bind-Selects, field_rules, get_web_service_arg-Selects) depth 40 fits 2000

  pub get_snmp_service-Selects :
      (m t i : ℕ) → Selects {Res = Res} {Row = Row} (get_snmp_service o m t i)
  unfolding get_snmp_service Selects
  get_snmp_service-Selects m t i =
      one-Selects _ _ (_, refl) λ res row. search (bind-Selects, field_rules) depth 40 fits 2000

  pub get_file_access_permission-Selects :
      (m t i j : ℕ) → Selects {Res = Res} {Row = Row} (get_file_access_permission o m t i j)
  unfolding get_file_access_permission Selects
  get_file_access_permission-Selects m t i j =
      many-Selects _ _ _ (_, refl) λ res row. search (field_rules) depth 40 fits 2000

  pub get_linkage-Selects : (m t i : ℕ) → Selects {Res = Res} {Row = Row} (get_linkage o m t i)
  unfolding get_linkage Selects
  get_linkage-Selects m t i =
      many-Selects _ _ _ (_, refl) λ res row. search (bind-Selects, field_rules) depth 40 fits 2000

  pub get_inode-Selects : (m t i : ℕ) → Selects {Res = Res} {Row = Row} (get_inode o m t i)
  unfolding get_inode Selects
  get_inode-Selects m t i =
      one-Selects _ _ (_, refl) λ res row. search (bind-Selects, field_rules) depth 40 fits 2000

  pub get_checksum-Selects : (m t i : ℕ) → Selects {Res = Res} {Row = Row} (get_checksum o m t i)
  unfolding get_checksum Selects
  get_checksum-Selects m t i =
      many-Selects _ _ _ (_, refl) λ res row. search (bind-Selects, field_rules) depth 40 fits 2000

  pub get_analyzer-Selects : (m t : ℕ) → Selects {Res = Res} {Row = Row} (get_analyzer o m t)
  unfolding get_analyzer Selects
  get_analyzer-Selects m t =
      many_indexed-Selects _ _ _ (_, refl)
        λ res i row.
          search (bind-Selects, field_rules, get_node-Selects, get_process-Selects) depth 40 fits
            2000

  found_anyway-Selects :
      (k : Res → Reading Res Row (Option Service)) (r : Result (Option Res))
      → ((res : Res) → Selects (k res))
      → Selects (found_anyway o k r)
  unfolding Selects
  found_anyway-Selects k (err e) h = tt
  found_anyway-Selects k (ok none) h = tt
  found_anyway-Selects k (ok (some res)) h = h res

  pub get_service-Selects : (m t i : ℕ) → Selects {Res = Res} {Row = Row} (get_service o m t i)
  unfolding get_service Selects
  get_service-Selects m t i = (
    (_, refl),
    λ r. found_anyway-Selects _ r λ res. λ row. found-Selects _ row λ x. kept-Selects _ (
        search (bind-Selects, field_rules, get_web_service-Selects, get_snmp_service-Selects) depth
          60 fits 4000),
  )

  file_accesses-Selects :
      (n i : ℕ) (f : ℕ → Reading Res Row FileAccess)
      → ((i : ℕ) → Selects (f i))
      → Selects (file_accesses o n i f)
  unfolding file_accesses Selects
  file_accesses-Selects zero i f h = tt
  file_accesses-Selects (suc n) i f h = bind-Selects (f i) _ (h i) λ a.
      bind-Selects (file_accesses o n (i + 1) f) _ (file_accesses-Selects n (i + 1) f h) λ more. tt

  file_access_at-Selects :
      (m i j k : ℕ) → Selects {Res = Res} {Row = Row} (file_access_at o m i j k)
  unfolding Selects
  file_access_at-Selects m i j k =
      search (bind-Selects, get_user_id-Selects, get_file_access_permission-Selects)

  counted-Selects :
      (m i j : ℕ) (v : Option Bytes) → Selects {Res = Res} {Row = Row} (counted o m i j v)
  unfolding Selects
  counted-Selects m i j none = tt
  counted-Selects m i j (some v) =
      bind-Selects _ _ (lift-Selects Res Row (field_to_uint32 o.old v))
        (λ n. file_accesses-Selects n 0 _ (file_access_at-Selects m i j))

  count_of-Selects :
      (m i j : ℕ) (res : Res) (r : Result (Option Row)) → Selects (count_of o m i j res r)
  unfolding Selects
  count_of-Selects m i j res (err e) = tt
  count_of-Selects m i j res (ok none) = tt
  count_of-Selects m i j res (ok (some row)) = counted-Selects m i j

  pub get_file_access-Selects :
      (m i j : ℕ) → Selects {Res = Res} {Row = Row} (get_file_access o m i j)
  unfolding get_file_access Selects
  get_file_access-Selects m i j = asked-Selects _ _ (_, refl) λ res. count_of-Selects m i j res

  pub get_file-Selects : (m i : ℕ) → Selects {Res = Res} {Row = Row} (get_file o m i)
  unfolding get_file Selects
  get_file-Selects m i =
      many_then-Selects _ _ _ (file_parts o m i) (_, refl)
        (λ res row. search (bind-Selects, field_rules) depth 60 fits 4000)
        (λ i x.
          search
            (
              bind-Selects, get_file_access-Selects, get_linkage-Selects, get_inode-Selects,
              get_checksum-Selects,
            )
            depth 40 fits 2000)

  pub get_source-Selects : (m : ℕ) → Selects {Res = Res} {Row = Row} (get_source o m)
  unfolding get_source Selects
  get_source-Selects m =
      many_then-Selects _ _ _ (source_parts o m) (_, refl)
        (λ res row. search (bind-Selects, field_rules) depth 60 fits 4000)
        (λ i x.
          search
            (
              bind-Selects, get_node-Selects, get_user-Selects, get_process-Selects,
              get_service-Selects,
            )
            depth 40 fits 2000)

  pub get_target-Selects : (m : ℕ) → Selects {Res = Res} {Row = Row} (get_target o m)
  unfolding get_target Selects
  get_target-Selects m =
      many_then-Selects _ _ _ (target_parts o m) (_, refl)
        (λ res row. search (bind-Selects, field_rules) depth 60 fits 4000)
        (λ i x.
          search
            (
              bind-Selects, get_node-Selects, get_user-Selects, get_process-Selects,
              get_service-Selects, get_file-Selects,
            )
            depth 40 fits 2000)
