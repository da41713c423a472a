-- ===== src/Sistema/Compartida.antt =====
-- A shared variable between two CPUs (CPU/cpu.c), through kernel/kernel.c.
use mathlib.Core.List.{append_assoc}
use tp_2014_1c_tp_so.Base.{
  ℕ, ◌+◌, ◌≡◌, ◌≢◌, refl, ◌∙◌, ap, List, [], ◌∷◌, ◌++◌, some, arith, length,
}
use tp_2014_1c_tp_so.Base.Int.{ℤ, pos}
use tp_2014_1c_tp_so.Base.Outcome.{ok}
use tp_2014_1c_tp_so.Base.Diccionario.{
  clave_de, dictionary_get, dictionary_put, dictionary_get-dictionary_put,
  dictionary_get-dictionary_put_ne,
}
use tp_2014_1c_tp_so.Mensajes.{MenComun, aviso}
use tp_2014_1c_tp_so.Mensajes.Tipos
use tp_2014_1c_tp_so.Kernel.Estado.{Kernel, Siguientes, llegan, a_comun}
use tp_2014_1c_tp_so.Kernel.Servicios as Atencion
use tp_2014_1c_tp_so.Cpu.Estado.{Maquina, Externo, comun, con_cadena, al_kernel, del_kernel}
use tp_2014_1c_tp_so.Cpu.Servicios.{obtener_valor_compartida, asignar_valor_compartida}
use tp_2014_1c_tp_so.Sistema.Impresion.{EsCadena, llena, con_cadena_lem}
use tp_2014_1c_tp_so.Sistema.Espera.{clave_de-cadena}

-- A name that a CPU sends is the kernel's key.
pub clave-con_cadena :
    (tipo : ℤ) (nombre : List ℕ)
    → EsCadena nombre
    → clave_de (con_cadena tipo nombre).dato ≡ ok nombre
clave-con_cadena tipo nombre c =
    ap (λ (w : MenComun). clave_de w.dato) (con_cadena_lem tipo nombre) ∙ clave_de-cadena c

-- The kernel writes and reads the variable of that name.
graba_lem :
    (t : Atencion.Texto) (k : Kernel) (soc_cpu : ℤ) (men : MenComun) (sig : Siguientes)
    (nombre : List ℕ) (viejo valor : ℤ)
    → clave_de men.dato ≡ ok nombre
    → dictionary_get nombre k.dicc_var ≡ some viejo
    → Atencion.numero t sig.dato.dato ≡ ok valor
    → Atencion.grabar_valor_compartida t k soc_cpu men (llegan sig)
      ≡ ok (
        record k { dicc_var = dictionary_put nombre valor k.dicc_var },
        a_comun soc_cpu (aviso Tipos.r_grabar_valor)
            ∷ a_comun soc_cpu (aviso Tipos.r_grabar_valor)
            ∷ [],
      )
unfolding Atencion.grabar_valor_compartida
graba_lem t k soc_cpu men sig nombre viejo valor c h n = ground (arith, c, h, n)

lee_lem :
    (t : Atencion.Texto) (k : Kernel) (soc_cpu : ℤ) (men : MenComun) (nombre : List ℕ) (valor : ℤ)
    → clave_de men.dato ≡ ok nombre
    → dictionary_get nombre k.dicc_var ≡ some valor
    → Atencion.obtener_valor_compartida t k soc_cpu men
      ≡ ok (k, a_comun soc_cpu (con_cadena Tipos.r_obtener_valor (t.string_itoa valor)) ∷ [])
unfolding Atencion.obtener_valor_compartida
lee_lem t k soc_cpu men nombre valor c h = ground (arith, c, h)

module _ (x : Externo) (m : Maquina) (nombre : List ℕ) (valor : ℤ) (entrada : List MenComun) where
  abbrev numero : List ℕ
  numero = x.texto.string_itoa valor

  -- The CPU writes the variable.
  asigna_lem :
      asignar_valor_compartida x
        (record m { entrada = aviso Tipos.r_grabar_valor ∷ aviso Tipos.r_grabar_valor ∷ entrada })
        nombre
        valor
      ≡ (
        valor,
        record m {
          entrada = entrada;
          salida =
              m.salida
              ++ (comun (con_cadena Tipos.grabar_valor nombre)
                  ∷ comun (con_cadena Tipos.valor_asignado numero)
                  ∷ []);
        },
      )
  unfolding asignar_valor_compartida al_kernel del_kernel
  asigna_lem = rw (append_assoc m.salida) refl

-- A string and its end are a byte and more.
no_vacia : (s : List ℕ) → (b : ℕ) × (bs : List ℕ) × (s ++ (0 ∷ []) ≡ b ∷ bs)
no_vacia [] = (0, [], refl)
no_vacia (b ∷ s) = (b, s ++ (0 ∷ []), refl)

module _ (x : Externo) (m : Maquina) (nombre : List ℕ) (entrada : List MenComun) where
  -- The machine that has read a variable.
  abbrev pub tras_obtener : Maquina
  tras_obtener = record m {
    entrada = entrada;
    salida = m.salida ++ (comun (con_cadena Tipos.obtener_valor nombre) ∷ []);
  }

  obtiene_dato :
      (tam : ℤ) (b : ℕ) (bs : List ℕ)
      → obtener_valor_compartida x
          (record m {
            entrada =
                record { tam_dato = tam; tipo = Tipos.r_obtener_valor; dato = b ∷ bs } ∷ entrada;
          })
          nombre
        ≡ ok (x.texto.atoi (b ∷ bs), tras_obtener)
  unfolding obtener_valor_compartida al_kernel del_kernel
  obtiene_dato tam b bs = refl

  -- The CPU reads it, where the text stands for the number.
  obtiene_lem :
      (texto : List ℕ) (valor : ℤ)
      → x.texto.atoi (texto ++ (0 ∷ [])) ≡ valor
      → obtener_valor_compartida x
          (record m { entrada = con_cadena Tipos.r_obtener_valor texto ∷ entrada })
          nombre
        ≡ ok (valor, tras_obtener)
  obtiene_lem texto valor h =
      let n = no_vacia texto in
      let leido : x.texto.atoi (n.0 ∷ n.1) ≡ valor = rw n.2 at h in
      rw (con_cadena_lem Tipos.r_obtener_valor texto, n.2)
        (obtiene_dato (pos (length texto + 1)) n.0 n.1 ∙ ap (λ (v : ℤ). ok (v, tras_obtener)) leido)

-- A CPU writes a shared variable that exists, and then any CPU, the same or another, reads it. The
-- messages of each are those that the kernel reads, and the kernel's answers those that each gets:
-- the first CPU takes two messages off its connection and the second one, and nothing more; the
-- second gets the value that the first wrote, and the kernel's other variables are as they were. This
-- is for an `atoi` that reads the text that `string_itoa` writes for the value.
pub obtener_valor_compartida-asignar_valor_compartida :
    (x : Externo) (k : Kernel) (soc_uno soc_dos : ℤ) (sig : Siguientes) (m1 m2 : Maquina)
    (nombre : List ℕ) (valor viejo : ℤ) (entrada1 entrada2 : List MenComun)
    → EsCadena nombre
    → dictionary_get nombre k.dicc_var ≡ some viejo
    → x.texto.atoi (x.texto.string_itoa valor ++ (0 ∷ [])) ≡ valor
    → let numero = con_cadena Tipos.valor_asignado (x.texto.string_itoa valor) in
      (k' : Kernel) × (r1 : MenComun) × (r2 : MenComun) × (r3 : MenComun)
      × (Atencion.grabar_valor_compartida x.texto k soc_uno
            (con_cadena Tipos.grabar_valor nombre)
            (llegan (record sig { dato = numero }))
          ≡ ok (k', a_comun soc_uno r1 ∷ a_comun soc_uno r2 ∷ []))
      × (asignar_valor_compartida x (record m1 { entrada = r1 ∷ r2 ∷ entrada1 }) nombre valor ≡ (
        valor,
        record m1 {
          entrada = entrada1;
          salida = m1.salida ++ (comun (con_cadena Tipos.grabar_valor nombre) ∷ comun numero ∷ []);
        },
      ))
      × (Atencion.obtener_valor_compartida x.texto k' soc_dos
            (con_cadena Tipos.obtener_valor nombre)
          ≡ ok (k', a_comun soc_dos r3 ∷ []))
      × (obtener_valor_compartida x (record m2 { entrada = r3 ∷ entrada2 }) nombre
          ≡ ok (valor, tras_obtener x m2 nombre entrada2))
      × ((otro : List ℕ)
          → nombre ≢ otro
          → dictionary_get otro k'.dicc_var ≡ dictionary_get otro k.dicc_var)
obtener_valor_compartida-asignar_valor_compartida x k soc_uno soc_dos sig m1 m2 nombre valor viejo
      entrada1 entrada2 c h leida =
    let texto = x.texto.string_itoa valor in
    let numero = con_cadena Tipos.valor_asignado texto in
    let dato : numero.dato ≡ texto ++ (0 ∷ []) =
      ap (λ (w : MenComun). w.dato) (con_cadena_lem Tipos.valor_asignado texto) in
    let nuevo : Atencion.numero x.texto numero.dato ≡ ok valor =
      ap (Atencion.numero x.texto) dato
      ∙ (Atencion.numero-ok x.texto _ (llena texto) ∙ ap ok leida) in
    let esta = dictionary_get-dictionary_put nombre valor k.dicc_var in
    (
      record k { dicc_var = dictionary_put nombre valor k.dicc_var },
      aviso Tipos.r_grabar_valor,
      aviso Tipos.r_grabar_valor,
      con_cadena Tipos.r_obtener_valor texto,
      graba_lem x.texto k soc_uno _ (record sig { dato = numero }) nombre viejo valor
          (clave-con_cadena Tipos.grabar_valor nombre c) h nuevo,
      asigna_lem x m1 nombre valor entrada1,
      lee_lem x.texto _ soc_dos _ nombre valor (clave-con_cadena Tipos.obtener_valor nombre c) esta,
      obtiene_lem x m2 nombre entrada2 texto valor leida,
      λ otro ne. dictionary_get-dictionary_put_ne nombre otro valor k.dicc_var ne,
    )
