-- ===== src/Controller/Handlers.antt =====
-- controller/cliente_controller.c: the two handlers, and their routes.
pub mod Fields
pub mod Invalid
pub mod Save
pub mod Requests
pub mod Routing
pub mod Statement
use crinha.Prelude.{
  ℕ, zero, suc, ◌^◌, ◌&&◌, if◌then◌else◌, Bool, true, false, Option, none, some, List, [], ◌∷◌,
  codes, Exec, ok, fault, null_pointer, out_of_bounds, ◌>>=◌ as exec_bind,
}
use crinha.Prelude.Int.{ℤ, to_bits}
use crinha.Clib.Memory.{c_str}
use crinha.Clib.Decimal.{atoi}
use crinha.Util.StringUtil.{strzcpy}
use crinha.Entity.{
  Cliente, Transacao, fresh_transacao, transacao_tipo_len, utf8_transacao_descricao_len,
}
use crinha.Db.Libpq.{Libpq}
use crinha.Db.State.{Db, M, ◌>>=◌, ◌>>◌, pure, raise, lift, alloc, release}
use crinha.Repository.ClienteRepository.{cliente_service_find_one}
use crinha.Repository.TransacaoRepository.{
  TransacaoList, transacao_service_find_last_10, transacao_service_save_async,
  transacao_service_free_list,
}
use crinha.Router.{
  Route, Routes, router_add_route, http_bad_request, http_not_found, http_unprocessable_entity,
  http_get, http_post,
}
use crinha.Controller.Jansson.{Jansson}
use crinha.Controller.Validation.{
  is_id_cliente_valido, is_descricao_transacao_valida, is_tipo_transacao_valido,
  is_valor_transacao_valido, is_limite_excedido, update_saldo_cliente,
}
use crinha.Controller.Url.{extract_url_param, url_find_by_id, url_transacao_save}
use crinha.Controller.Response.{
  respond, current_time_as_iso_str, build_json_saldo, build_json_saldo_data, build_json_transacoes,
  build_json_extrato, max_buffer_find_by_id, max_buffer_transacao_save,
}

-- A number given to a parameter of type uint32_t.
abbrev pub to_u32 : ℤ → ℕ
to_u32 n = to_bits (2 ^ 31) n

-- `&transacoes.values[i]` for the indices below `size`.
unfoldable pub listed : ℕ → List Transacao → Exec (List Transacao)
listed zero ts = ok []
listed (suc n) [] = fault out_of_bounds
listed (suc n) (t ∷ ts) = exec_bind (listed n ts) λ rest. ok (t ∷ rest)

abbrev pub elements : TransacaoList → Exec (List Transacao)
elements l = elim l.values [
  | none ↦ elim l.size [ zero ↦ ok [] | suc n ↦ fault null_pointer ]
  | some ts ↦ listed l.size ts
]

-- `strzcpy` from a string that may be NULL.
abbrev pub copy_string : List ℕ → Option (List ℕ) → ℕ → Exec (List ℕ)
copy_string dest none size = fault null_pointer
copy_string dest (some s) size = strzcpy dest 0 s size

module _ (js : Jansson) where
  open js use {Json, loads, object_get, string_value, is_integer, integer_value, dumps}

  -- The condition of cliente_controller_save_transacao, from left to right.
  unfoldable pub campos_validos : Option Json → Option Json → Option Json → Exec Bool
  campos_validos json_valor json_tipo json_descricao =
      if is_descricao_transacao_valida (string_value json_descricao)
      then exec_bind (is_tipo_transacao_valido (string_value json_tipo)) (λ tipo_ok.
        if tipo_ok
        then ok (is_integer json_valor && is_valor_transacao_valido (integer_value json_valor))
        else ok false)
      else ok false

  -- The fields that the handler sets in the new transaction.
  unfoldable pub nova_transacao : ℤ → Option Json → Option Json → Option Json → Exec Transacao
  nova_transacao id_cliente json_valor json_tipo json_descricao =
      exec_bind (copy_string fresh_transacao.tipo (string_value json_tipo) transacao_tipo_len)
        λ tipo.
          exec_bind
            (copy_string fresh_transacao.descricao (string_value json_descricao)
              utf8_transacao_descricao_len)
            λ descricao. ok (record fresh_transacao {
              id_cliente = to_u32 id_cliente;
              valor = integer_value json_valor;
              tipo = tipo;
              descricao = descricao;
            })

  module _ (pq : Libpq) where
    -- From `transacao_service_save_async` on, with a client and a transaction within the limit.
    unfoldable pub salvar : Cliente → Transacao → M (Db pq) (List ℕ)
    salvar cliente transacao = do
      ret ← transacao_service_save_async pq transacao
      if ret
          then lift (
              respond max_buffer_transacao_save
                (dumps (build_json_saldo js (update_saldo_cliente cliente transacao))))
          else pure http_unprocessable_entity

    -- With the client that was found: NULL is answered by 404.
    unfoldable pub com_cliente : Option Cliente → Transacao → M (Db pq) (List ℕ)
    com_cliente none transacao = pure http_not_found
    com_cliente (some cliente) transacao = do
      resp ←
          (if is_limite_excedido cliente transacao
            then pure http_unprocessable_entity
            else salvar cliente transacao)
      release 1
      pure resp

    -- With valid fields.
    unfoldable pub processar : ℤ → Option Json → Option Json → Option Json → M (Db pq) (List ℕ)
    processar id_cliente json_valor json_tipo json_descricao = do
      alloc 1
      transacao ← lift (nova_transacao id_cliente json_valor json_tipo json_descricao)
      cliente ← cliente_service_find_one pq (to_u32 id_cliente)
      resp ← com_cliente cliente transacao
      release 1
      pure resp

    -- With a valid parameter and a body.
    unfoldable pub com_corpo : ℤ → List ℕ → M (Db pq) (List ℕ)
    com_corpo id_cliente body = do
      let json_transacao = loads (c_str body)
      let json_valor = object_get json_transacao (codes "valor")
      let json_tipo = object_get json_transacao (codes "tipo")
      let json_descricao = object_get json_transacao (codes "descricao")
      valid ← lift (campos_validos json_valor json_tipo json_descricao)
      if valid
          then processar id_cliente json_valor json_tipo json_descricao
          else pure http_unprocessable_entity

    unfoldable pub cliente_controller_save_transacao : List ℕ → Option (List ℕ) → M (Db pq) (List ℕ)
    cliente_controller_save_transacao url body = do
      param ← lift (extract_url_param url)
      elim body [
        | none ↦ pure http_bad_request
        | some text ↦
            if is_id_cliente_valido param
            then com_corpo (atoi param) text
            else pure http_unprocessable_entity
      ]

    -- `local_time` is what the clock shows, for the date of the statement.
    module _ (local_time : pq.World → List ℕ × ℕ) where
      unfoldable pub get_current_time_as_iso_str : M (Db pq) (List ℕ)
      get_current_time_as_iso_str d = lift (current_time_as_iso_str (local_time d.world)) d

      unfoldable pub extrato : ℤ → Option Cliente → M (Db pq) (List ℕ)
      extrato id_cliente none = pure http_not_found
      extrato id_cliente (some cliente) = do
        transacoes ← transacao_service_find_last_10 pq (to_u32 id_cliente)
        date ← get_current_time_as_iso_str
        values ← lift (elements transacoes)
        resp ← lift (
            respond max_buffer_find_by_id (
              dumps (
                build_json_extrato js (build_json_saldo_data js cliente date)
                  (build_json_transacoes js values))))
        transacao_service_free_list pq transacoes
        release 1
        pure resp

      unfoldable pub cliente_controller_find_by_id : List ℕ → M (Db pq) (List ℕ)
      cliente_controller_find_by_id url = do
        param ← lift (extract_url_param url)
        if is_id_cliente_valido param
            then (do
              cliente ← cliente_service_find_one pq (to_u32 (atoi param))
              extrato (atoi param) cliente)
            else pure http_bad_request

      abbrev pub route_find_by_id : Route (Db pq)
      route_find_by_id = record {
        method = http_get;
        url = url_find_by_id;
        controller = some cliente_controller_find_by_id;
        controller_body = none;
      }

      abbrev pub route_transacao_save : Route (Db pq)
      route_transacao_save = record {
        method = http_post;
        url = url_transacao_save;
        controller = none;
        controller_body = some cliente_controller_save_transacao;
      }

      -- The results of the two calls are not looked at.
      unfoldable pub cliente_controller_init : Routes (Db pq) → Exec (Routes (Db pq))
      cliente_controller_init routes =
          exec_bind (router_add_route routes route_find_by_id)
            λ first. exec_bind (router_add_route first.0 route_transacao_save) λ second. ok second.0
